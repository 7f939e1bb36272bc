-- ===== src/Images/Version.antt =====
-- core/infrastructure/image.go: the tag that belongs to the operator's version, and Go's
-- `strings.Split` and `strings.Join` that it uses.
use Prim.Native.Char.{Char, char, code}
use Prim.Native.String.append
use text.Mathlib.TextEquality.{Char-path}
use text.Mathlib.TextLemmas.{cons≢nil, append-ne-nil_of_right_ne-nil}
use kogito_operator.Common.{
  String, ℕ, ◌<>◌, ◌≡◌, refl, sym, ap, ◌∙◌, ◌≢◌, Bool, true, false, List, [], ◌∷◌, if◌then◌else◌,
  nat_eq, is_empty, arith, eq_iff, eq_refl, ne→==_false, All, Bool-cases, inl, inr,
}

-- `strings.Split(s, sep)` for a separator of one character.
cons_part : Char → List String → List String
cons_part c [] = String.◌∷◌ c "" ∷ []
cons_part c (p ∷ parts) = String.◌∷◌ c p ∷ parts

unfoldable pub split : Char → String → List String
unfolding cons_part
split sep String.[] = "" ∷ []
split sep (String.◌∷◌ c s) =
    let rest = split sep s in if nat_eq (code c) (code sep) then "" ∷ rest else cons_part c rest

-- `strings.Join`
unfoldable pub join : String → List String → String
join sep [] = ""
join sep (p ∷ []) = p
join sep (p ∷ (q ∷ parts)) = p <> (sep <> join sep (q ∷ parts))

-- versionSeparator, '.'
abbrev pub version_separator : Char
version_separator = char 46 tt

-- LatestTag
abbrev pub latest_tag : String
latest_tag = "latest"

-- `versionPrefix[:lastIndex]`, joined.
version_of : List String → String
unfolding join
version_of [] = latest_tag
version_of (major ∷ []) = major
version_of (major ∷ (minor ∷ parts)) = join "." (major ∷ (minor ∷ []))

unfoldable pub get_kogito_image_version : String → String
unfolding version_of split
get_kogito_image_version v =
    if is_empty v then latest_tag else version_of (split version_separator v)

version_latest :
    get_kogito_image_version (get_kogito_image_version "") ≡ get_kogito_image_version ""
unfolding get_kogito_image_version version_of split join
version_latest = refl

-- No character of the text is the separator.
unfoldable pub Lacks : Char → String → Type 0
Lacks sep String.[] = Unit
Lacks sep (String.◌∷◌ c s) = (nat_eq (code c) (code sep) ≡ false) × Lacks sep s

nat_eq_refl : (n : ℕ) → nat_eq n n ≡ true
nat_eq_refl n = ground arith

split-Lacks : (sep : Char) (s : String) → Lacks sep s → split sep s ≡ s ∷ []
unfolding split Lacks cons_part
split-Lacks sep String.[] h = refl
split-Lacks sep (String.◌∷◌ c s) (h, hs) = rw (h, split-Lacks sep s hs) refl

-- A first part that lacks the separator.
split-part :
    (sep : Char) (s t : String) → Lacks sep s → split sep (s <> String.◌∷◌ sep t) ≡ s ∷ split sep t
unfolding split Lacks cons_part
split-part sep String.[] t h = rw (append.nil (String.◌∷◌ sep t), nat_eq_refl (code sep)) refl
split-part sep (String.◌∷◌ c s) t (h, hs) =
    rw (append.cons c s (String.◌∷◌ sep t), h, split-part sep s t hs) refl

-- Every part lacks the separator, and joined they are the text again.
split-parts_Lacks : (sep : Char) (s : String) → All (Lacks sep) (split sep s)
unfolding split Lacks
split-parts_Lacks sep String.[] = (tt, tt)
split-parts_Lacks sep (String.◌∷◌ c s) =
    put (nat_eq (code c) (code sep)) refl (split sep s) (split-parts_Lacks sep s)
  where
    put :
        (b : Bool)
        → nat_eq (code c) (code sep) ≡ b
        → (parts : List String) → All (Lacks sep) parts
        → All (Lacks sep) (if b then "" ∷ parts else cons_part c parts)
    put true e parts h = (tt, h)
    put false e [] h = ((e, tt), tt)
    put false e (p ∷ parts) (hp, h) = ((e, hp), h)

separator-append : (t : String) → "." <> t ≡ String.◌∷◌ version_separator t
separator-append t =
    append.cons version_separator "" t ∙ ap (λ s. String.◌∷◌ version_separator s) (append.nil t)

join-cons_part :
    (c : Char) (parts : List String) → join "." (cons_part c parts) ≡ String.◌∷◌ c (join "." parts)
unfolding join cons_part
join-cons_part c [] = refl
join-cons_part c (p ∷ []) = refl
join-cons_part c (p ∷ (q ∷ parts)) = append.cons c p _

pub split-parts :
    (sep : Char) (s : String) → (p : String) × (parts : List String) × (split sep s ≡ p ∷ parts)
unfolding split
split-parts sep String.[] = ("", [], refl)
split-parts sep (String.◌∷◌ c s) = put (nat_eq (code c) (code sep)) (split sep s)
  where
    put :
        (b : Bool) (rest : List String)
        → (p : String) × (parts : List String) × ((if b then "" ∷ rest else cons_part c rest)
            ≡ p ∷ parts)
    put true rest = ("", rest, refl)
    put false [] = (String.◌∷◌ c "", [], refl)
    put false (p ∷ parts) = (String.◌∷◌ c p, parts, refl)

join-empty_part :
    (p : String) (parts : List String) → join "." ("" ∷ (p ∷ parts)) ≡ "." <> join "." (p ∷ parts)
unfolding join
join-empty_part p parts = append.nil _

code-eq : (c : Char) → nat_eq (code c) (code version_separator) ≡ true → c ≡ version_separator
code-eq c h = Char-path c version_separator (ground arith)

join-split : (s : String) → join "." (split version_separator s) ≡ s
unfolding split join
join-split String.[] = refl
join-split (String.◌∷◌ c s) =
    let (p, parts, e) = split-parts version_separator s in
    let rest = join-split s in
    elim (Bool-cases (nat_eq (code c) (code version_separator))) [
      | inl h ↦
          rw (h, e, join-empty_part p parts, sym e, rest, separator-append s, code-eq c h) refl
      | inr h ↦ rw (h, join-cons_part c (split version_separator s), rest) refl
    ]

part-ne_empty : (s t : String) → (s <> ("." <> t)) ≢ ""
part-ne_empty s t = append-ne-nil_of_right_ne-nil s (λ e. cons≢nil (sym (separator-append t) ∙ e))

version_of-split :
    (v : String) → v ≢ "" → get_kogito_image_version v ≡ version_of (split version_separator v)
unfolding get_kogito_image_version
version_of-split v h = rw (ne→==_false v "" h) refl

split-two_parts :
    (a b : String)
    → Lacks version_separator a
    → Lacks version_separator b
    → split version_separator (a <> ("." <> b)) ≡ a ∷ (b ∷ [])
split-two_parts a b h k =
    rw (separator-append b, split-part version_separator a b h, split-Lacks version_separator b k)
      refl

version-two_parts :
    (a b : String)
    → Lacks version_separator a
    → Lacks version_separator b
    → get_kogito_image_version (a <> ("." <> b)) ≡ a <> ("." <> b)
unfolding version_of join
version-two_parts a b h k =
    version_of-split _ (part-ne_empty a b) ∙ ap version_of (split-two_parts a b h k)

major_minor :
    (major minor micro : String)
    → Lacks version_separator major
    → Lacks version_separator minor
    → get_kogito_image_version (major <> ("." <> (minor <> ("." <> micro))))
      ≡ major <> ("." <> minor)
unfolding version_of join
major_minor major minor micro h k =
    version_of-split _ (part-ne_empty major _)
    ∙ ap version_of (
        ap (split version_separator) (
          ap (λ s. major <> s) (separator-append _)
          ∙ ap (λ s. major <> String.◌∷◌ version_separator (minor <> s)) (separator-append micro))
        ∙ split-part version_separator major _ h
        ∙ ap (λ ps. major ∷ ps) (split-part version_separator minor micro k))

latest_version_of_empty : get_kogito_image_version "" ≡ latest_tag
unfolding get_kogito_image_version
latest_version_of_empty = refl

latest_version : get_kogito_image_version "latest" ≡ "latest"
unfolding get_kogito_image_version version_of split join
latest_version = refl

idem_of_parts :
    (v : String) (parts : List String)
    → v ≢ ""
    → split version_separator v ≡ parts
    → All (Lacks version_separator) parts
    → get_kogito_image_version (get_kogito_image_version v) ≡ get_kogito_image_version v
unfolding version_of join
idem_of_parts v [] n e h = rw (version_of-split v n, e) latest_version
idem_of_parts v (a ∷ []) n e h =
    ap get_kogito_image_version
      (version_of-split v n ∙ ap version_of e ∙ sym (ap (join ".") e) ∙ join-split v)
idem_of_parts v (a ∷ (b ∷ parts)) n e (h, (k, _)) =
    rw (version_of-split v n, e) (version-two_parts a b h k)

-- The version of a version is itself.
pub get_kogito_image_version_idem :
    (v : String)
    → get_kogito_image_version (get_kogito_image_version v) ≡ get_kogito_image_version v
get_kogito_image_version_idem v = elim (Bool-cases (is_empty v)) [
  | inl e ↦ rw ((eq_iff v "").0 e) version_latest
  | inr e ↦
      idem_of_parts v _ (λ n. cc (n, e, eq_refl v)) refl (split-parts_Lacks version_separator v)
]

latest-ne_empty : latest_tag ≢ ""
latest-ne_empty e = cc

ne_empty_of_parts :
    (v : String) (parts : List String)
    → v ≢ ""
    → split version_separator v ≡ parts
    → version_of parts ≢ ""
unfolding version_of join
ne_empty_of_parts v [] n e h = latest-ne_empty h
ne_empty_of_parts v (a ∷ []) n e h = n (sym (join-split v) ∙ ap (join ".") e ∙ h)
ne_empty_of_parts v (a ∷ (b ∷ parts)) n e h = part-ne_empty a b h

pub get_kogito_image_version-ne_empty : (v : String) → get_kogito_image_version v ≢ ""
get_kogito_image_version-ne_empty v h = elim (Bool-cases (is_empty v)) [
  | inl e ↦
      latest-ne_empty
        (sym latest_version_of_empty ∙ ap get_kogito_image_version (sym ((eq_iff v "").0 e)) ∙ h)
  | inr e ↦
      let n : v ≢ "" = λ x. cc (x, e, eq_refl v) in
      ne_empty_of_parts v _ n refl (sym (version_of-split v n) ∙ h)
]

-- Of a version with at least two separators, what is in front of the second one is the image's tag;
-- the tag of that is the same again.
pub get_kogito_image_version_lem :
    (major minor micro : String)
    → Lacks version_separator major
    → Lacks version_separator minor
    → (get_kogito_image_version (major <> ("." <> (minor <> ("." <> micro))))
        ≡ major <> ("." <> minor))
      × (get_kogito_image_version (major <> ("." <> minor)) ≡ major <> ("." <> minor))
get_kogito_image_version_lem major minor micro h k =
    (major_minor major minor micro h k, version-two_parts major minor h k)
