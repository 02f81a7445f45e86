-- ===== src/Texts.antt =====
-- Texts that the program looks into, as lists of bytes, with the functions of Go's `strings` that it
-- uses. Letters and white space are the ASCII ones.
use Prim.Native.Char.{code}
use harry_performance_scrape.Prelude.{
  ℕ, ltb, ◌≤◌, length, take, length-take, inl, inr, Bool-cases, ◌+◌, ◌-◌, ◌≡◌, ◌↔◌, refl, Bool,
  true, false, ◌&&◌, ◌||◌, List, [], ◌∷◌, ◌++◌, String, arith, leb, eqb, Comparable, if◌then◌else◌,
}
use mathlib.Core.List.{reverse}

abbrev pub Text : Type 0
Text = List ℕ

-- The bytes of a literal, all of them ASCII in this program.
abbrev pub text : String → Text
text String.[] = []
text (String.◌∷◌ c s) = code c ∷ text s

abbrev pub text_eqb : Text → Text → Bool
text_eqb [] [] = true
text_eqb (a ∷ s) (b ∷ t) = eqb a b && text_eqb s t
text_eqb _ _ = false

pub text_eqb_iff : (s t : Text) → (text_eqb s t ≡ true) ↔ (s ≡ t)
text_eqb_iff [] [] = ground arith
text_eqb_iff [] (b ∷ t) = ground arith
text_eqb_iff (a ∷ s) [] = ground arith
text_eqb_iff (a ∷ s) (b ∷ t) = ground (arith, text_eqb_iff s t)

instance abbrev pub text_eq : Comparable Text
text_eq = record { same = text_eqb; same_iff = text_eqb_iff }

-- `strings.HasPrefix` and `strings.Contains`.
unfoldable pub has_prefix : Text → Text → Bool
has_prefix s [] = true
has_prefix [] (p ∷ ps) = false
has_prefix (c ∷ s) (p ∷ ps) = eqb c p && has_prefix s ps

unfoldable pub contains : Text → Text → Bool
unfolding has_prefix
contains [] sub = has_prefix [] sub
contains (c ∷ s) sub = has_prefix (c ∷ s) sub || contains s sub

-- `strings.ToUpper` on the ASCII letters; other bytes are left as they are.
unfoldable pub to_upper : ℕ → ℕ
to_upper c = if leb b'a' c && leb c b'z' then c - 32 else c

pub has_prefix-append : (s t p : Text) → has_prefix s p ≡ true → has_prefix (s ++ t) p ≡ true
unfolding has_prefix
has_prefix-append s t [] h = refl
has_prefix-append [] t (p ∷ ps) h = absurd (ground arith)
has_prefix-append (c ∷ s) t (p ∷ ps) h = ground (arith, has_prefix-append s t ps)

-- A text that holds a marker still does when something is put before or behind it.
pub contains-append_right : (s t p : Text) → contains s p ≡ true → contains (s ++ t) p ≡ true
unfolding contains
contains-append_right [] [] p h = h
contains-append_right [] (c ∷ t) [] h = refl
contains-append_right [] (c ∷ t) (p ∷ ps) h = absurd (ground arith)
contains-append_right (c ∷ s) t p h =
    ground (arith, has_prefix-append (c ∷ s) t p, contains-append_right s t p)

pub contains-append_left : (s t p : Text) → contains t p ≡ true → contains (s ++ t) p ≡ true
unfolding contains
contains-append_left [] t p h = h
contains-append_left (c ∷ s) t p h = ground (arith, contains-append_left s t p)

-- `strings.ToLower`.
unfoldable pub to_lower : ℕ → ℕ
to_lower c = if leb b'A' c && leb c b'Z' then c + 32 else c

abbrev is_space : ℕ → Bool
is_space c = leb 9 c && leb c 13 || eqb c 32

trim_left : Text → Text
trim_left [] = []
trim_left (c ∷ s) = let rest = trim_left s in if is_space c then rest else c ∷ s

-- `strings.TrimSpace`.
unfoldable pub trim_space : Text → Text
unfolding trim_left
trim_space s = reverse (trim_left (reverse (trim_left s)))

-- `if len(s) > n { s = s[:n] }`.
unfoldable pub truncated : ℕ → Text → Text
truncated n s = if ltb n (length s) then take n s else s

pub length-truncated-le : (n : ℕ) (s : Text) → length (truncated n s) ≤ n
unfolding truncated
length-truncated-le n s = elim (Bool-cases (ltb n (length s))) [
  | inl over ↦ rw over (omega (arith, length-take n s))
  | inr fits ↦ rw fits (ground arith)
]
