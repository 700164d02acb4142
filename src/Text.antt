-- ===== src/Text.antt =====
-- The functions of Go's `strings` that the program uses, over code points.
use Prim.Native.Char.{Char, code}
use nezha_diff.Base.{
  ℕ, ◌-◌, Bool, true, false, ◌&&◌, String, List, [], ◌∷◌, nat_beq, length, take, drop, leb,
  if◌then◌else◌,
}

abbrev codes : String → List ℕ
codes (String.◌∷◌ first others) = code first ∷ codes others
codes String.[] = []

same_codes : List ℕ → List ℕ → Bool
same_codes [] [] = true
same_codes (a ∷ as') (b ∷ bs) = nat_beq a b && same_codes as' bs
same_codes _ _ = false

-- strings.HasSuffix
unfoldable pub has_suffix : String → String → Bool
unfolding same_codes
has_suffix s t =
    leb (length (codes t)) (length (codes s))
    && same_codes (drop (length (codes s) - length (codes t)) (codes s)) (codes t)

-- strings.HasPrefix
unfoldable pub has_prefix : String → String → Bool
unfolding same_codes
has_prefix s t = same_codes (take (length (codes t)) (codes s)) (codes t)

push_char : Char → List String → List String
push_char c [] = String.◌∷◌ c String.[] ∷ []
push_char c (s ∷ ss) = String.◌∷◌ c s ∷ ss

-- strings.Split(s, "|")
unfoldable pub split_bar : String → List String
unfolding push_char
split_bar String.[] = String.[] ∷ []
split_bar (String.◌∷◌ c s) =
    let rest = split_bar s in if nat_beq (code c) 124 then String.[] ∷ rest else push_char c rest
