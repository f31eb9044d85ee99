-- ===== src/Budget/Prompt.antt =====
-- budget.py: the estimate of a whole prompt. What `json.dumps` makes of a schema is a parameter.
use label_kit.Prelude.{
  ℕ, suc, ◌+◌, ◌*◌, ◌≡◌, refl, Option, none, some, List, [], ◌∷◌, ◌++◌, arith, length,
  length-append,
}
use mathlib.Core.List.{append_assoc}
use label_kit.Prelude.Dict.{or_default}
use label_kit.Budget.Estimate.{Text, est_text}

abbrev pub msg_overhead_tokens : ℕ
msg_overhead_tokens = 4

-- The kind of a part is its constructor; the text of a text part may be missing.
pub data Part : Type 0 where
  text : Option Text → Part
  image : Part

abbrev pub Message : Type 0
Message = List Part

pub record Running : Type 0 where
  pub est : ℕ
  pub n_images : ℕ

add_part : Running → Part → Running
add_part r (text t) = record r { est = r.est + est_text (or_default t []) }
add_part r image = record r { n_images = r.n_images + 1 }

add_parts : Running → Message → Running
add_parts r [] = r
add_parts r (p ∷ ps) = add_parts (add_part r p) ps

unfoldable pub add_messages : Running → List Message → Running
unfolding add_parts add_part
add_messages r [] = r
add_messages r (m ∷ ms) = add_messages (add_parts r m) ms

module _ {Schema : Type 0} (dumps : Schema → Text) where
  schema_tokens : Option Schema → ℕ
  schema_tokens none = 0
  schema_tokens (some schema) = est_text (dumps schema)

  unfoldable pub est_prompt : List Message → Option Schema → ℕ → ℕ
  unfolding schema_tokens
  est_prompt messages schema image_cost =
      let r = add_messages (record { est = 0; n_images = 0 }) messages in
      r.est + r.n_images * image_cost + msg_overhead_tokens * length messages + schema_tokens schema

-- What the parts of a list of messages contribute.
text_tokens : Message → ℕ
text_tokens [] = 0
text_tokens (text t ∷ ps) = est_text (or_default t []) + text_tokens ps
text_tokens (image ∷ ps) = text_tokens ps

image_count : Message → ℕ
image_count [] = 0
image_count (text t ∷ ps) = image_count ps
image_count (image ∷ ps) = suc (image_count ps)

add_parts_lem :
    (r : Running) (m : Message)
    → ((add_parts r m).est ≡ r.est + text_tokens m)
      × ((add_parts r m).n_images ≡ r.n_images + image_count m)
unfolding add_messages text_tokens image_count
add_parts_lem r [] = omega arith
add_parts_lem r (text t ∷ ps) = omega (arith, add_parts_lem (add_part r (text t)) ps)
add_parts_lem r (image ∷ ps) = omega (arith, add_parts_lem (add_part r image) ps)

abbrev joined : List Message → Message
joined [] = []
joined (m ∷ ms) = m ++ joined ms

text_tokens-append : (m n : Message) → text_tokens (m ++ n) ≡ text_tokens m + text_tokens n
unfolding text_tokens
text_tokens-append [] n = omega arith
text_tokens-append (text t ∷ ps) n = omega (arith, text_tokens-append ps n)
text_tokens-append (image ∷ ps) n = text_tokens-append ps n

image_count-append : (m n : Message) → image_count (m ++ n) ≡ image_count m + image_count n
unfolding image_count
image_count-append [] n = omega arith
image_count-append (text t ∷ ps) n = image_count-append ps n
image_count-append (image ∷ ps) n = omega (arith, image_count-append ps n)

add_messages_lem :
    (r : Running) (ms : List Message)
    → ((add_messages r ms).est ≡ r.est + text_tokens (joined ms))
      × ((add_messages r ms).n_images ≡ r.n_images + image_count (joined ms))
unfolding add_messages
add_messages_lem r [] = unfold text_tokens image_count in omega arith
add_messages_lem r (m ∷ ms) = omega (
  arith,
  add_messages_lem (add_parts r m) ms,
  add_parts_lem r m,
  text_tokens-append m (joined ms),
  image_count-append m (joined ms),
)

joined-append : (ms ns : List Message) → joined (ms ++ ns) ≡ joined ms ++ joined ns
joined-append [] ns = refl
joined-append (m ∷ ms) ns = rw (joined-append ms ns, append_assoc)

module _ {Schema : Type 0} (dumps : Schema → Text) where
  est_prompt_lem :
      (ms : List Message) (schema : Option Schema) (image_cost : ℕ)
      → est_prompt dumps ms schema image_cost
        ≡ text_tokens (joined ms)
          + image_count (joined ms) * image_cost
          + 4 * length ms
          + schema_tokens dumps schema
  unfolding est_prompt
  est_prompt_lem ms schema image_cost =
      let (e, n) = add_messages_lem (record { est = 0; n_images = 0 }) ms in rw (e, n) (omega arith)

  -- The estimate is additive over the messages, and the schema counts once: it is that of the first
  -- messages without the schema, and that of the others with it.
  pub est_prompt-append :
      (ms ns : List Message) (schema : Option Schema) (image_cost : ℕ)
      → est_prompt dumps (ms ++ ns) schema image_cost
        ≡ est_prompt dumps ms none image_cost + est_prompt dumps ns schema image_cost
  unfolding schema_tokens
  est_prompt-append ms ns schema image_cost =
      rw
        (
          est_prompt_lem (ms ++ ns),
          est_prompt_lem ms,
          est_prompt_lem ns,
          joined-append,
          text_tokens-append,
          image_count-append,
          length-append,
        )
        (omega arith)
