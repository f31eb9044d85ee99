-- ===== src/State/Roots.antt =====
-- state.py, _path_covered: which paths the roots of a role cover, by the parts of the pointers.
use label_kit.Prelude.{
  ◌≡◌, ◌↔◌, ◌⊎◌, refl, sym, ◌∙◌, ap, inl, inr, Bool, true, false, Option, none, some, List, [], ◌∷◌,
  ◌++◌, ◌||◌, String, ==_refl, string_eq, arith,
}
use label_kit.State.Data.{Library, RoleSpec}
use label_kit.State.Validation.{is_prefix, covered_by, any_root, covers, path_covered, permitted}

-- The first parts of a path.
abbrev pub Begins : List String → List String → Type 0
Begins root path = (rest : List String) × (path ≡ root ++ rest)

module _ {Json : Type 0} (library : Library Json) where
  -- The path is at or below a root; this root and those before it are pointers.
  abbrev pub IsBelow : List String → List String → Type 0
  IsBelow path [] = ⊥
  IsBelow path (root ∷ roots) =
      (parts : List String) × (library.parts root ≡ some parts)
      × (Begins parts path ⊎ IsBelow path roots)

  abbrev pub IsCovered : String → List String → Type 0
  IsCovered path roots =
      (parts : List String) × (library.parts path ≡ some parts) × IsBelow parts roots

  -- A test may read, and a change may write; without a role there is no limit.
  abbrev pub IsPermitted : Option (RoleSpec Json) → Bool → String → Type 0
  IsPermitted none is_test path = Unit {0}
  IsPermitted (some role) true path = IsCovered path role.read_roots
  IsPermitted (some role) false path = IsCovered path role.write_roots

is_prefix-Begins : (xs ys : List String) → is_prefix xs ys ≡ true → Begins xs ys
unfolding is_prefix
is_prefix-Begins [] ys h = (ys, refl)
is_prefix-Begins (x ∷ xs) [] h = absurd cc
is_prefix-Begins (x ∷ xs) (y ∷ ys) h =
    let same : x ≡ y = (string_eq.test_iff x y).0 (ground (arith, h)) in
    let (rest, e) = is_prefix-Begins xs ys (ground (arith, h)) in
    (rest, ap (λ l. y ∷ l) e ∙ ap (λ z. z ∷ (xs ++ rest)) (sym same))

or_true : (a b : Bool) → b ≡ true → (a || b) ≡ true
or_true a b h = ground (arith, h)

Begins-is_prefix : (xs rest : List String) → is_prefix xs (xs ++ rest) ≡ true
unfolding is_prefix
Begins-is_prefix [] rest = refl
Begins-is_prefix (x ∷ xs) rest = ground (arith, ==_refl x, Begins-is_prefix xs rest)

module _ {Json : Type 0} (library : Library Json) where
  by_prefix :
      (path parts roots : List String) (b : Bool)
      → is_prefix parts path ≡ b
      → (any_root library path roots ≡ true → IsBelow library path roots)
      → (b || any_root library path roots) ≡ true
      → Begins parts path ⊎ IsBelow library path roots
  by_prefix path parts roots true q f h = inl (is_prefix-Begins parts path q)
  by_prefix path parts roots false q f h = inr (f h)

  root-IsBelow :
      (path : List String) (root : String) (roots : List String) (o : Option (List String))
      → library.parts root ≡ o
      → (any_root library path roots ≡ true → IsBelow library path roots)
      → covered_by library o path (any_root library path roots) ≡ true
      → IsBelow library path (root ∷ roots)
  root-IsBelow path root roots none e f h = absurd cc
  root-IsBelow path root roots (some parts) e f h =
      (parts, e, by_prefix path parts roots (is_prefix parts path) refl f h)

  any_root-IsBelow :
      (path roots : List String) → any_root library path roots ≡ true → IsBelow library path roots
  unfolding any_root
  any_root-IsBelow path [] h = absurd cc
  any_root-IsBelow path (root ∷ roots) h =
      root-IsBelow path root roots (library.parts root) refl (any_root-IsBelow path roots) h

  IsBelow-any_root :
      (path roots : List String) → IsBelow library path roots → any_root library path roots ≡ true
  unfolding any_root
  IsBelow-any_root path [] m = absurd m
  IsBelow-any_root path (root ∷ roots) (parts, e, inl (rest, q)) =
      ap (λ o. covered_by library o path (any_root library path roots)) e
      ∙ ap (λ b. b || any_root library path roots)
          (ap (is_prefix parts) q ∙ Begins-is_prefix parts rest)
  IsBelow-any_root path (root ∷ roots) (parts, e, inr m) =
      ap (λ o. covered_by library o path (any_root library path roots)) e
      ∙ or_true (is_prefix parts path) (any_root library path roots) (IsBelow-any_root path roots m)

  covers-IsCovered :
      (path : String) (roots : List String) (o : Option (List String))
      → library.parts path ≡ o
      → covers library o roots ≡ true
      → IsCovered library path roots
  covers-IsCovered path roots none e h = absurd cc
  covers-IsCovered path roots (some parts) e h = (parts, e, any_root-IsBelow parts roots h)

  path_covered_iff :
      (path : String) (roots : List String)
      → (path_covered library path roots ≡ true) ↔ IsCovered library path roots
  unfolding path_covered
  path_covered_iff path roots = (
    covers-IsCovered path roots (library.parts path) refl,
    λ c. ap (λ o. covers library o roots) c.1 ∙ IsBelow-any_root c.0 roots c.2,
  )

  pub permitted_iff :
      (role : Option (RoleSpec Json)) (is_test : Bool) (path : String)
      → (permitted library role is_test path ≡ true) ↔ IsPermitted library role is_test path
  permitted_iff none is_test path = (λ _. tt, λ _. refl)
  permitted_iff (some role) true path = path_covered_iff path role.read_roots
  permitted_iff (some role) false path = path_covered_iff path role.write_roots
