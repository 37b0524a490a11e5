-- ===== src/Base/Text.antt =====
-- Go's `strings` package, as far as the program uses it, on the native texts.
use Prim.Native.Char.{Char, code}
use Prim.Native.String.{String, ◌++◌ as append}
use text.Mathlib.Text.{starts_with}
use text.Mathlib.TextLemmas.{nil-append, cons-append}
use or3_intern.Base.{
  ap, ◌∙◌, ◌+◌, ltb, not, inl, inr, Bool-cases, ℕ, Bool, true, false, ◌||◌, ◌&&◌, ◌==◌, leb, List,
  [], ◌∷◌, ◌≡◌, refl, ◌≢◌, str_eq, eq_iff, if◌then◌else◌,
}

-- Unicode's White_Space, which `strings.TrimSpace` cuts
is_space : ℕ → Bool
is_space c =
    (leb 9 c && leb c 13)
    || c == 32
    || c == 0x85
    || c == 0xa0
    || c == 0x1680
    || (leb 0x2000 c && leb c 0x200a)
    || c == 0x2028
    || c == 0x2029
    || c == 0x202f
    || c == 0x205f
    || c == 0x3000

trim_left : String → String
unfolding is_space
trim_left String.[] = String.[]
trim_left (String.◌∷◌ c s) =
    let rest = trim_left s in if is_space (code c) then rest else String.◌∷◌ c s

trim_right : String → String
unfolding is_space
trim_right String.[] = String.[]
trim_right (String.◌∷◌ c s) =
    let rest = trim_right s in if is_space (code c) && str_eq rest "" then "" else String.◌∷◌ c rest

-- strings.TrimSpace
unfoldable pub trim_space : String → String
unfolding trim_left trim_right
trim_space s = trim_right (trim_left s)

translate : String → String → Char → Char
translate (String.◌∷◌ from froms) (String.◌∷◌ to tos) c =
    let rest = translate froms tos c in if code from == code c then to else rest
translate _ _ c = c

map_chars : (Char → Char) → String → String
map_chars f String.[] = String.[]
map_chars f (String.◌∷◌ c s) = String.◌∷◌ (f c) (map_chars f s)

-- strings.ToLower, exact wherever the result is compared with an ASCII text: besides A to Z the
-- characters that it takes into ASCII are U+0130 and U+212A.
unfoldable pub to_lower : String → String
unfolding translate map_chars
to_lower = map_chars (translate "ABCDEFGHIJKLMNOPQRSTUVWXYZİK" "abcdefghijklmnopqrstuvwxyzik")

-- strings.ToUpper, exact in the same sense: besides a to z these are U+0131 and U+017F.
unfoldable pub to_upper : String → String
unfolding translate map_chars
to_upper = map_chars (translate "abcdefghijklmnopqrstuvwxyzıſ" "ABCDEFGHIJKLMNOPQRSTUVWXYZIS")

-- strings.Contains
unfoldable pub contains : String → String → Bool
contains String.[] sub = str_eq sub ""
contains (String.◌∷◌ c s) sub =
    let rest = contains s sub in starts_with (String.◌∷◌ c s) sub || rest

-- the bytes of a text in UTF-8
unfoldable pub byte_length : String → ℕ
byte_length String.[] = 0
byte_length (String.◌∷◌ c s) =
    (if ltb (code c) 0x80
      then 1
      else if ltb (code c) 0x800
      then 2
      else if ltb (code c) 0x10000
      then 3
      else 4)
    + byte_length s

-- strings.TrimSpace(s) == ""
abbrev pub is_blank : String → Bool
is_blank s = str_eq (trim_space s) ""

-- slices.Contains
unfoldable pub member : String → List String → Bool
member s [] = false
member s (t ∷ ts) = str_eq t s || member s ts

trim_space_test : trim_space " \t a b\n" ≡ "a b"
unfolding trim_space
trim_space_test = refl

to_lower_test : to_lower "Viewer" ≡ "viewer"
unfolding to_lower
to_lower_test = refl

contains_test : contains "/api/terminal/x" "/terminal" ≡ true
unfolding contains
contains_test = refl

pub str_ne : (a b : String) → str_eq a b ≡ false → a ≢ b
str_ne a b h e = cc (h, (eq_iff a b).1 e)

-- every character satisfies a test
unfoldable pub all_chars : (ℕ → Bool) → String → Bool
all_chars p String.[] = true
all_chars p (String.◌∷◌ c s) = p (code c) && all_chars p s

-- no character is white space
unfoldable pub spaceless : String → Bool
unfolding is_space
spaceless = all_chars (λ c. not (is_space c))

trim_left-spaceless : (s : String) → spaceless s ≡ true → trim_left s ≡ s
unfolding spaceless all_chars trim_left
trim_left-spaceless String.[] h = refl
trim_left-spaceless (String.◌∷◌ c s) h = elim (Bool-cases (is_space (code c))) [
  | inl white ↦ absurd (cc (rw white at h))
  | inr black ↦ rw black refl
]

trim_right-spaceless : (s : String) → spaceless s ≡ true → trim_right s ≡ s
unfolding spaceless all_chars trim_right
trim_right-spaceless String.[] h = refl
trim_right-spaceless (String.◌∷◌ c s) h = elim (Bool-cases (is_space (code c))) [
  | inl white ↦ absurd (cc (rw white at h))
  | inr black ↦ rw black (ap (λ s. String.◌∷◌ c s) (trim_right-spaceless s (rw black at h)))
]

pub trim_space-spaceless : (s : String) → spaceless s ≡ true → trim_space s ≡ s
unfolding trim_space
trim_space-spaceless s h = ap trim_right (trim_left-spaceless s h) ∙ trim_right-spaceless s h

pub all_chars-append :
    (p : ℕ → Bool) (s t : String)
    → all_chars p s ≡ true
    → all_chars p t ≡ true
    → all_chars p (append s t) ≡ true
unfolding all_chars
all_chars-append p String.[] t hs ht = rw (nil-append t) ht
all_chars-append p (String.◌∷◌ c s) t hs ht = elim (Bool-cases (p (code c))) [
  | inl passes ↦ rw (cons-append c s t, passes) (all_chars-append p s t (rw passes at hs) ht)
  | inr fails ↦ absurd (cc (rw fails at hs))
]

pub spaceless-append :
    (s t : String) → spaceless s ≡ true → spaceless t ≡ true → spaceless (append s t) ≡ true
unfolding spaceless
spaceless-append s t hs ht = all_chars-append _ s t hs ht

trim_right_twice : (s : String) → trim_right (trim_right s) ≡ trim_right s
unfolding trim_right
trim_right_twice String.[] = refl
trim_right_twice (String.◌∷◌ c s) =
    elim (Bool-cases (is_space (code c) && str_eq (trim_right s) "")) [
      | inl cut ↦ rw cut refl
      | inr kept ↦ rw (kept, trim_right_twice s, kept) refl
    ]

-- a text without leading white space
data Black : String → Type 0 where
  empty : Black ""
  first : (c : Char) (s : String) → is_space (code c) ≡ false → Black (String.◌∷◌ c s)

trim_left-Black : (s : String) → Black (trim_left s)
unfolding trim_left
trim_left-Black String.[] = empty
trim_left-Black (String.◌∷◌ c s) = elim (Bool-cases (is_space (code c))) [
  | inl white ↦ rw white (trim_left-Black s)
  | inr black ↦ rw black (first c s black)
]

trim_left-trim_right : {s : String} → Black s → trim_left (trim_right s) ≡ trim_right s
unfolding trim_left trim_right
trim_left-trim_right empty = refl
trim_left-trim_right (first c s black) = rw (black, black) refl

-- Trimming twice is trimming once.
pub trim_space_twice : (s : String) → trim_space (trim_space s) ≡ trim_space s
unfolding trim_space
trim_space_twice s =
    ap trim_right (trim_left-trim_right (trim_left-Black s)) ∙ trim_right_twice (trim_left s)
