-- ===== src/Common/Text.antt =====
-- Texts: equality of lists of texts, membership, and the checks that the program writes as regular
-- expressions (`providers/base.py`, `validate_identifier` and `canonical_uuid`; the SHA-256 pattern).
use Prim.Native.Char.{code}
use Prim.Native.String.{String}
use Prim.Native.Nat.{ℕ, zero, suc, ◌+◌}
use mathlib.Core.Path.{◌≡◌, refl}
use mathlib.Core.Logic.{◌↔◌}
use mathlib.Core.Bool.{Bool, true, false, not, ◌&&◌, ◌||◌}
use mathlib.Core.List.{List, [], ◌∷◌}
use native.Mathlib.Omega.{arith}
use text.Mathlib.Text.{◌==◌ as str_eq}
use text.Mathlib.TextEquality.{eq_iff}
use cks_simulator.Common.Tests.{leb, ◌==◌, if◌then◌else◌}
use cks_simulator.Common.Lists.{length}

-- The code points of a text. `String` has its own `[]` and `∷`.
abbrev pub codes : String → List ℕ
codes String.[] = []
codes (String.◌∷◌ c s) = code c ∷ codes s

-- `len(value)`
abbrev pub text_length : String → ℕ
text_length s = length (codes s)

-- `value[:limit]`
unfoldable pub take_text : ℕ → String → String
take_text zero s = ""
take_text (suc n) String.[] = ""
take_text (suc n) (String.◌∷◌ c s) = String.◌∷◌ c (take_text n s)

-- `value in values`
unfoldable pub is_in : String → List String → Bool
is_in s [] = false
is_in s (t ∷ ts) = str_eq s t || is_in s ts

-- `left == right` for tuples of texts
unfoldable pub texts_eq : List String → List String → Bool
texts_eq [] [] = true
texts_eq (s ∷ ss) (t ∷ ts) = str_eq s t && texts_eq ss ts
texts_eq _ _ = false

pub texts_eq_iff : (ss ts : List String) → (texts_eq ss ts ≡ true) ↔ (ss ≡ ts)
unfolding texts_eq
texts_eq_iff [] [] = ((λ _. refl), (λ _. refl))
texts_eq_iff [] (t ∷ ts) = ((λ h. cc), (λ h. cc))
texts_eq_iff (s ∷ ss) [] = ((λ h. cc), (λ h. cc))
texts_eq_iff (s ∷ ss) (t ∷ ts) = (
  (λ h. ground (arith, eq_iff s t, texts_eq_iff ss ts)),
  (λ h. ground (arith, eq_iff s t, texts_eq_iff ss ts)),
)

unfoldable pub is_lower : ℕ → Bool
is_lower c = leb b'a' c && leb c b'z'

unfoldable pub is_digit : ℕ → Bool
is_digit c = leb b'0' c && leb c b'9'

is_lower_hex : ℕ → Bool
unfolding is_digit
is_lower_hex c = is_digit c || (leb b'a' c && leb c b'f')

-- `(?:-[a-z0-9]+)*$` behind a word of `[a-z0-9]`; `fresh` says that a hyphen was just read.
identifier_tail : Bool → List ℕ → Bool
unfolding is_lower is_digit
identifier_tail fresh [] = not fresh
identifier_tail fresh (c ∷ cs) =
    let after_hyphen = identifier_tail true cs in
    let after_letter = identifier_tail false cs in
    if is_lower c || is_digit c
    then after_letter
    else if (c == b'-') && not fresh
    then after_hyphen
    else false

-- `^[a-z][a-z0-9]*(?:-[a-z0-9]+)*$`
identifier_pattern : List ℕ → Bool
unfolding identifier_tail
identifier_pattern [] = false
identifier_pattern (c ∷ cs) = is_lower c && identifier_tail false cs

-- The test of `validate_identifier`, with its default `max_length`.
unfoldable pub is_identifier : String → Bool
unfolding identifier_pattern
is_identifier s = leb (text_length s) 63 && identifier_pattern (codes s)

all_hex : List ℕ → Bool
unfolding is_lower_hex
all_hex [] = true
all_hex (c ∷ cs) = is_lower_hex c && all_hex cs

-- `^[0-9a-f]{64}$`
unfoldable pub is_sha256 : String → Bool
unfolding all_hex
is_sha256 s = (text_length s == 64) && all_hex (codes s)

-- 8-4-4-4-12 lowercase hexadecimal digits: the texts that `str(uuid.UUID(value))` gives back as
-- they are. The number is the place in the text.
uuid_places : ℕ → List ℕ → Bool
unfolding is_lower_hex
uuid_places i [] = i == 36
uuid_places i (c ∷ cs) =
    (if (i == 8) || (i == 13) || (i == 18) || (i == 23) then c == b'-' else is_lower_hex c)
    && uuid_places (i + 1) cs

-- The test of `canonical_uuid`.
unfoldable pub is_canonical_uuid : String → Bool
unfolding uuid_places
is_canonical_uuid s = uuid_places 0 (codes s)

-- The characters that `str.strip` removes.
unfoldable pub is_space : ℕ → Bool
is_space c =
    (leb 9 c && leb c 13)
    || (leb 28 c && leb c 32)
    || (c == 0x85)
    || (c == 0xa0)
    || (c == 0x1680)
    || (leb 0x2000 c && leb c 0x200a)
    || (c == 0x2028)
    || (c == 0x2029)
    || (c == 0x202f)
    || (c == 0x205f)
    || (c == 0x3000)

all_space : List ℕ → Bool
unfolding is_space
all_space [] = true
all_space (c ∷ cs) = is_space c && all_space cs

-- `not value.strip()`
unfoldable pub is_blank : String → Bool
unfolding all_space
is_blank s = all_space (codes s)

identifier_accepts : is_identifier "control-plane" ≡ true
unfolding is_identifier
identifier_accepts = refl

identifier_rejects : is_identifier "worker--1" ≡ false
unfolding is_identifier
identifier_rejects = refl

uuid_accepts : is_canonical_uuid "01234567-89ab-4cde-8f01-23456789abcd" ≡ true
unfolding is_canonical_uuid
uuid_accepts = refl

-- The parts of `Path(value)`: the texts between the slashes, less the empty ones and `.`.
add_to_first : ℕ → List (List ℕ) → List (List ℕ)
add_to_first c [] = (c ∷ []) ∷ []
add_to_first c (p ∷ ps) = (c ∷ p) ∷ ps

split_path : List ℕ → List (List ℕ)
unfolding add_to_first
split_path [] = []
split_path (c ∷ cs) =
    let rest = split_path cs in if c == b'/' then [] ∷ rest else add_to_first c rest

is_part : List ℕ → Bool
is_part [] = false
is_part (c ∷ []) = not (c == b'.')
is_part (_ ∷ _ ∷ _) = true

path_parts : List (List ℕ) → List (List ℕ)
unfolding is_part
path_parts [] = []
path_parts (p ∷ ps) = let rest = path_parts ps in if is_part p then p ∷ rest else rest

is_parent : List ℕ → Bool
is_parent (c ∷ d ∷ []) = (c == b'.') && (d == b'.')
is_parent _ = false

-- `".." in path.parts`
has_parent : List (List ℕ) → Bool
unfolding is_parent
has_parent [] = false
has_parent (p ∷ ps) = is_parent p || has_parent ps

unfoldable pub codes_eq : List ℕ → List ℕ → Bool
codes_eq [] [] = true
codes_eq (c ∷ cs) (d ∷ ds) = (c == d) && codes_eq cs ds
codes_eq _ _ = false

-- The parts of a path whose text starts with `/opt/course/`.
below_course : List (List ℕ) → Bool
unfolding codes_eq
below_course (p ∷ q ∷ _ ∷ _) = codes_eq p (codes "opt") && codes_eq q (codes "course")
below_course _ = false

-- A root of one slash; exactly two slashes are kept as they are.
one_root : List ℕ → Bool
one_root (c ∷ d ∷ e ∷ _) = (c == b'/') && (not (d == b'/') || (e == b'/'))
one_root _ = false

-- The test of `ExamTask.workdir`: an absolute path below `/opt/course/` with no part `..`.
pub path_is_safe : String → Bool
unfolding split_path path_parts has_parent below_course one_root
path_is_safe s =
    let parts = path_parts (split_path (codes s)) in
    one_root (codes s) && not (has_parent parts) && below_course parts

path_accepts : path_is_safe "/opt/course/7" ≡ true
unfolding path_is_safe
path_accepts = refl

path_normalises : path_is_safe "/opt//course/./7" ≡ true
unfolding path_is_safe
path_normalises = refl

path_rejects : path_is_safe "/opt/course/../etc" ≡ false
unfolding path_is_safe
path_rejects = refl

-- A text without its hyphens: `uuid.UUID(value).hex` of a canonical UUID.
unfoldable pub drop_hyphens : String → String
drop_hyphens String.[] = ""
drop_hyphens (String.◌∷◌ c s) =
    let rest = drop_hyphens s in if code c == b'-' then rest else String.◌∷◌ c rest

-- `left + right`
infixr 66 ◌+++◌
unfoldable pub ◌+++◌ : String → String → String
String.[] +++ t = t
(String.◌∷◌ c s) +++ t = String.◌∷◌ c (s +++ t)

-- `[1-9][0-9]*$`
all_digit : List ℕ → Bool
unfolding is_digit
all_digit [] = true
all_digit (c ∷ cs) = is_digit c && all_digit cs

version_codes : List ℕ → Bool
unfolding all_digit
version_codes [] = false
version_codes (c ∷ cs) = is_digit c && not (c == b'0') && all_digit cs

-- The codes are the given ones, and what follows is a version.
versioned : List ℕ → List ℕ → Bool
unfolding version_codes
versioned [] cs = version_codes cs
versioned (p ∷ ps) [] = false
versioned (p ∷ ps) (c ∷ cs) = (p == c) && versioned ps cs

-- `^full\.sNN\.v[1-9][0-9]*$` with the scenario's own identifier for NN.
unfoldable pub is_handler_of : String → String → Bool
unfolding versioned ◌+++◌
is_handler_of scenario_id handler =
    versioned (codes ("full.s" +++ scenario_id +++ ".v")) (codes handler)

handler_accepts : is_handler_of "07" "full.s07.v12" ≡ true
unfolding is_handler_of
handler_accepts = refl
