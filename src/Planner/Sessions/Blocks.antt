-- ===== src/Planner/Sessions/Blocks.antt =====
-- planner.py, _session_groups and _allocate_blocks: sessions, blocks and their events.
use label_kit.Prelude.{
  ℕ, ◌+◌, ◌≤◌, ◌≡◌, refl, sym, ap, ◌∙◌, inl, inr, ◌⊎◌, false, ◌&&◌, List, [], ◌∷◌, ◌++◌, arith, ltb,
  length, All, Bool-cases,
}
use mathlib.Core.List.{append_assoc, append-nil}
use label_kit.Planner.Sessions.{
  PlacedBranch, Group, group_is, add_to_groups, groups_from, session_groups, group_events,
  block_limit, is_open, blocks_from, allocate_blocks,
}

-- The lists one after the other.
unfoldable pub join : {A : Type 0} → List (List A) → List A
join [] = []
join (l ∷ ls) = l ++ join ls

join-add_to_groups :
    (gs : List Group) (p : PlacedBranch) → join (add_to_groups gs p) ≡ join gs ++ (p ∷ [])
unfolding join add_to_groups
join-add_to_groups [] p = refl
join-add_to_groups (g ∷ []) p = elim (Bool-cases (group_is p.session_index g)) [
  | inl same ↦ rw same (append-nil (g ++ (p ∷ [])) ∙ ap (λ l. l ++ (p ∷ [])) (sym (append-nil g)))
  | inr other ↦ rw other (ap (λ l. l ++ (p ∷ [])) (sym (append-nil g)))
]
join-add_to_groups (g ∷ (h ∷ gs)) p =
    ap (λ l. g ++ l) (join-add_to_groups (h ∷ gs) p) ∙ sym (append_assoc g (join (h ∷ gs)) (p ∷ []))

join-groups_from :
    (gs : List Group) (ps : List PlacedBranch) → join (groups_from gs ps) ≡ join gs ++ ps
unfolding groups_from
join-groups_from gs [] = sym (append-nil (join gs))
join-groups_from gs (p ∷ ps) =
    join-groups_from (add_to_groups gs p) ps
    ∙ ap (λ l. l ++ ps) (join-add_to_groups gs p)
    ∙ append_assoc (join gs) (p ∷ []) ps

-- The branches of the group are of one session.
abbrev pub IsSession : ℕ → Group → Type 0
IsSession index g = All (λ (p : PlacedBranch). p.session_index ≡ index) g

-- The groups have a branch each and are of one session each, and neighbours are of different
-- sessions.
abbrev pub AreSessions : List Group → Type 0
AreSessions [] = Unit
AreSessions ([] ∷ gs) = ⊥
AreSessions ((p ∷ ps) ∷ []) = IsSession p.session_index (p ∷ ps)
AreSessions ((p ∷ ps) ∷ (h ∷ gs)) =
    IsSession p.session_index (p ∷ ps) × (group_is p.session_index h ≡ false) × AreSessions (h ∷ gs)

IsSession-snoc :
    (index : ℕ) (g : Group) (p : PlacedBranch)
    → IsSession index g
    → p.session_index ≡ index
    → IsSession index (g ++ (p ∷ []))
IsSession-snoc index [] p h e = (e, tt)
IsSession-snoc index (q ∷ g) p h e = (h.0, IsSession-snoc index g p h.1 e)

-- The groups after another one, which is of a different session than their first.
abbrev IsAfter : ℕ → List Group → Type 0
IsAfter index [] = Unit
IsAfter index (g ∷ gs) = group_is index g ≡ false

IsAfter-add_to_groups :
    (index : ℕ) (h : Group) (gs : List Group) (p : PlacedBranch)
    → AreSessions (h ∷ gs)
    → group_is index h ≡ false
    → IsAfter index (add_to_groups (h ∷ gs) p)
unfolding add_to_groups
IsAfter-add_to_groups index [] gs p s e = absurd s
IsAfter-add_to_groups index (q ∷ qs) [] p s e =
    elim (Bool-cases (group_is p.session_index (q ∷ qs))) [
      | inl same ↦ rw same e
      | inr other ↦ rw other e
    ]
IsAfter-add_to_groups index (q ∷ qs) (k ∷ gs) p s e = e

cons-AreSessions :
    (q : PlacedBranch) (qs : List PlacedBranch) (gs : List Group)
    → IsSession q.session_index (q ∷ qs)
    → IsAfter q.session_index gs
    → AreSessions gs
    → AreSessions ((q ∷ qs) ∷ gs)
cons-AreSessions q qs [] h a s = h
cons-AreSessions q qs (g ∷ gs) h a s = (h, a, s)

add_to_groups-AreSessions :
    (gs : List Group) (p : PlacedBranch) → AreSessions gs → AreSessions (add_to_groups gs p)
unfolding add_to_groups
add_to_groups-AreSessions [] p s = (refl, tt)
add_to_groups-AreSessions ([] ∷ gs) p s = absurd s
add_to_groups-AreSessions ((q ∷ qs) ∷ []) p s =
    elim (Bool-cases (group_is p.session_index (q ∷ qs))) [
      | inl same ↦ rw same (IsSession-snoc q.session_index (q ∷ qs) p s (ground (arith, same)))
      | inr other ↦ rw other (s, ground (arith, other), (refl, tt))
    ]
add_to_groups-AreSessions ((q ∷ qs) ∷ (h ∷ gs)) p s =
    cons-AreSessions q qs (add_to_groups (h ∷ gs) p) s.0
      (IsAfter-add_to_groups q.session_index h gs p s.2 s.1)
      (add_to_groups-AreSessions (h ∷ gs) p s.2)

groups_from-AreSessions :
    (gs : List Group) (ps : List PlacedBranch) → AreSessions gs → AreSessions (groups_from gs ps)
unfolding groups_from
groups_from-AreSessions gs [] s = s
groups_from-AreSessions gs (p ∷ ps) s =
    groups_from-AreSessions (add_to_groups gs p) ps (add_to_groups-AreSessions gs p s)

unfoldable pub block_events : List Group → ℕ
block_events [] = 0
block_events (g ∷ gs) = group_events g + block_events gs

-- The block is one session, or has at most 4096 events.
abbrev pub IsBlock : List Group → Type 0
IsBlock b = (length b ≡ 1) ⊎ (block_events b ≤ block_limit)

block_events-snoc :
    (b : List Group) (g : Group) → block_events (b ++ (g ∷ [])) ≡ block_events b + group_events g
unfolding block_events
block_events-snoc [] g = omega arith
block_events-snoc (h ∷ b) g = omega (arith, block_events-snoc b g)

join-blocks_from : (b : List Group) (n : ℕ) (gs : List Group) → join (blocks_from b n gs) ≡ b ++ gs
unfolding join blocks_from
join-blocks_from [] n [] = refl
join-blocks_from (h ∷ b) n [] = refl
join-blocks_from b n (g ∷ gs) =
    elim (Bool-cases (is_open b && ltb block_limit (n + group_events g))) [
      | inl full ↦ rw full (ap (λ l. b ++ l) (join-blocks_from (g ∷ []) (group_events g) gs))
      | inr room ↦
          rw room
            (join-blocks_from (b ++ (g ∷ [])) (n + group_events g) gs ∙ append_assoc b (g ∷ []) gs)
    ]

room-IsBlock :
    (b : List Group) (n : ℕ) (g : Group)
    → n ≡ block_events b
    → (is_open b && ltb block_limit (n + group_events g)) ≡ false
    → IsBlock (b ++ (g ∷ []))
room-IsBlock [] n g e h = inl refl
room-IsBlock (k ∷ b) n g e h = inr (ground (arith, e, h, block_events-snoc (k ∷ b) g))

blocks_from-IsBlock :
    (b : List Group) (n : ℕ) (gs : List Group)
    → n ≡ block_events b
    → IsBlock b
    → All IsBlock (blocks_from b n gs)
unfolding blocks_from
blocks_from-IsBlock [] n [] e h = tt
blocks_from-IsBlock (k ∷ b) n [] e h = (h, tt)
blocks_from-IsBlock b n (g ∷ gs) e h =
    elim (Bool-cases (is_open b && ltb block_limit (n + group_events g))) [
      | inl full ↦ rw full (
        h,
        blocks_from-IsBlock (g ∷ []) (group_events g) gs (unfold block_events in omega arith)
            (inl refl),
      )
      | inr room ↦ rw room (
          blocks_from-IsBlock (b ++ (g ∷ [])) (n + group_events g) gs
            (omega (arith, e, block_events-snoc b g)) (room-IsBlock b n g e room))
    ]

-- The primary sessions are the placed branches in their order, grouped where neighbours share a session.
-- The blocks are the sessions in their order; none is split, and a block of more than one session has
-- at most 4096 events.
pub allocate_blocks-IsBlock :
    (placed : List PlacedBranch)
    → (join (session_groups placed) ≡ placed)
      × AreSessions (session_groups placed)
      × (join (allocate_blocks placed) ≡ session_groups placed)
      × All IsBlock (allocate_blocks placed)
unfolding session_groups allocate_blocks
allocate_blocks-IsBlock placed = (
  join-groups_from [] placed ∙ unfold join in refl,
  groups_from-AreSessions [] placed tt,
  join-blocks_from [] 0 (groups_from [] placed),
  blocks_from-IsBlock [] 0 (groups_from [] placed) (unfold block_events in refl)
      (inr (unfold block_events in omega arith)),
)
