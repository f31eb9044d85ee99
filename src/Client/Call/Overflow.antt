-- ===== src/Client/Call/Overflow.antt =====
-- llm_client.py: how a response of status 400 is recognised as a context overflow, and what the
-- reason for the end of a response leads to.
use Prim.Native.String.{String}
use Prim.Native.Char.{code}
use label_kit.Prelude.{
  ℕ, Bool, true, false, ◌&&◌, ◌||◌, List, [], ◌∷◌, Option, none, some, nat_beq, ltb,
}

-- The code points of a text.
abbrev pub codes : String → List ℕ
codes String.[] = []
codes (String.◌∷◌ c s) = code c ∷ codes s

unfoldable pub is_prefix : List ℕ → List ℕ → Bool
is_prefix [] text = true
is_prefix (c ∷ cs) [] = false
is_prefix (c ∷ cs) (d ∷ text) = nat_beq c d && is_prefix cs text

-- `pattern in text`
unfoldable pub is_infix : List ℕ → List ℕ → Bool
is_infix cs [] = is_prefix cs []
is_infix cs (d ∷ text) = is_prefix cs (d ∷ text) || is_infix cs text

abbrev pub overflow_body_patterns : List String
overflow_body_patterns =
    "maximum context length" ∷ "context_length_exceeded" ∷ "prompt is too long" ∷ "prompt too long"
    ∷ "\"code\":\"1261\"" ∷ "\"code\": \"1261\"" ∷ "context_window_exceeded"
    ∷ "exceed_context_size_error" ∷ []

unfoldable pub any_infix : List String → List ℕ → Bool
any_infix [] text = false
any_infix (p ∷ ps) text = is_infix (codes p) text || any_infix ps text

-- `lower` is str.lower.
unfoldable pub overflow_body_matches : (List ℕ → List ℕ) → List ℕ → Bool
unfolding any_infix is_infix is_prefix
overflow_body_matches lower text = any_infix overflow_body_patterns (lower text)

abbrev pub has_status : Option ℕ → ℕ → Bool
has_status none s = false
has_status (some t) s = nat_beq t s

unfoldable pub sniff_overflow_400 : (List ℕ → List ℕ) → ℕ → Option ℕ → List ℕ → Bool
unfolding overflow_body_matches
sniff_overflow_400 lower context_window status_code body_text =
    has_status status_code 400 && (ltb 0 context_window && overflow_body_matches lower body_text)
