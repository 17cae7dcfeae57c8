-- ===== src/Server/Guidance/Written.antt =====
-- outdated/mcp-server/src/server.rs, `parse_yaml_metadata`: a front matter that is written is read back.
use symposium.Prelude.{
  ℕ, ◌==◌, Bool, true, false, ◌&&◌, not, Option, some, none, List, [], ◌∷◌, ◌++◌, Bool-cases, leb,
  All, if◌then◌else◌, ◌≡◌, refl, ap, ◌∙◌, inl, inr, arith,
}
use symposium.Prelude.Text.{
  Text, codes, lines, trim, trim_start, trim_end, strip_prefix, starts_with, text_eq,
}
use symposium.Walkthrough.Yaml.{all, split_once}
use symposium.Walkthrough.Yaml.Written.{
  keep_before, trim_end-append, trim_start_visible, trim_start_space, trim_visible,
}
use symposium.Server.Guidance.{before, Metadata, metadata_line, metadata_lines, parse_yaml_metadata}

abbrev pub is_quote : ℕ → Bool
is_quote c = c == b'"'

-- A character that may stand in a value.
abbrev pub is_plain : ℕ → Bool
is_plain c = not (c == 10) && not (is_quote c)

abbrev visible : ℕ → Bool
visible c = not (c == 10)

all-append : (p : ℕ → Bool) (s t : Text) → all p s ≡ true → all p t ≡ true → all p (s ++ t) ≡ true
unfolding all
all-append p [] t h h' = h'
all-append p (c ∷ s) t h h' = ground (arith, h, all-append p s t, h')

all-cons :
    (p : ℕ → Bool) (c : ℕ) (s : Text) → all p (c ∷ s) ≡ true → (p c ≡ true) × (all p s ≡ true)
unfolding all
all-cons p c s h = ground (arith, h)

plain_visible : (s : Text) → all is_plain s ≡ true → all visible s ≡ true
unfolding all
plain_visible [] h = refl
plain_visible (c ∷ s) h =
    let (hc, hs) = all-cons is_plain c s h in ground (arith, hc, plain_visible s hs)

abbrev marker : Text
marker = codes "\n---\n"

-- What is in front of the marker, at a line.
abbrev in_front : ℕ → Bool → Option Text → Option Text
in_front c b rest = if b then some [] else elim rest [ some t ↦ some (c ∷ t) | none ↦ none ]

before-visible :
    (s t : Text) {u : Text}
    → all visible s ≡ true
    → before marker t ≡ some u
    → before marker (s ++ t) ≡ some (s ++ u)
unfolding before starts_with all
before-visible [] t h h' = h'
before-visible (c ∷ s) t h h' =
    let (hc, hs) = all-cons visible c s h in
    let f : (c == 10) ≡ false = ground (arith, hc) in rw (f, before-visible s t hs h') refl

lines_step :
    (c d : ℕ) (s l : Text) (ls : List Text)
    → (c == 10) ≡ false
    → (d == 10) ≡ false
    → lines (d ∷ s) ≡ l ∷ ls
    → lines (c ∷ d ∷ s) ≡ (c ∷ l) ∷ ls
unfolding lines
lines_step c d s l ls h h' e = elim (Bool-cases (c == 13)) [
  | inl t ↦ rw (h, h', t, e) refl
  | inr f ↦ rw (h, h', f, e) refl
]

-- A line that ends in `x`.
lines-visible :
    (s : Text) (x : ℕ) (t : Text) (ls : List Text)
    → all visible s ≡ true
    → (x == 10) ≡ false
    → lines (x ∷ t) ≡ (x ∷ []) ∷ ls
    → lines (s ++ x ∷ t) ≡ (s ++ x ∷ []) ∷ ls
unfolding all
lines-visible [] x t ls h n e = e
lines-visible (c ∷ []) x t ls h n e =
    let (hc, hs) = all-cons visible c [] h in lines_step c x t (x ∷ []) ls (ground (arith, hc)) n e
lines-visible (c ∷ d ∷ s) x t ls h n e =
    let (hc, hs) = all-cons visible c (d ∷ s) h in
    let (hd, hs') = all-cons visible d s hs in
    lines_step c d (s ++ x ∷ t) (d ∷ s ++ x ∷ []) ls (ground (arith, hc)) (ground (arith, hd))
      (lines-visible (d ∷ s) x t ls hs n e)

-- `"{value}"`
abbrev pub quoted : Text → Text
quoted value = b'"' ∷ value ++ b'"' ∷ []

-- What the parser relies on in `char::is_whitespace`.
pub record Spaces (is_whitespace : ℕ → Bool) : Type 0 where
  pub space : is_whitespace b' ' ≡ true
  pub quote_visible : is_whitespace b'"' ≡ false
  pub letters_visible : (c : ℕ) → leb b'a' c && leb c b'z' ≡ true → is_whitespace c ≡ false

keep_before_visible : (c : ℕ) (s : Text) → is_quote c ≡ false → keep_before is_quote c s ≡ c ∷ s
keep_before_visible c [] f = rw (f) refl
keep_before_visible c (d ∷ s) f = refl

trim_end-quoted : (s : Text) → all is_plain s ≡ true → trim_end is_quote (s ++ b'"' ∷ []) ≡ s
unfolding trim_end all
trim_end-quoted [] h = refl
trim_end-quoted (c ∷ s) h =
    let (hc, hs) = all-cons is_plain c s h in
    let f : is_quote c ≡ false = ground (arith, hc) in
    ap (keep_before is_quote c) (trim_end-quoted s hs) ∙ keep_before_visible c s f

trim-quoted : (s : Text) → all is_plain s ≡ true → trim is_quote (quoted s) ≡ s
unfolding trim trim_start trim_end all
trim-quoted [] h = refl
trim-quoted (c ∷ s) h =
    let (hc, hs) = all-cons is_plain c s h in
    let f : is_quote c ≡ false = ground (arith, hc) in rw (f) (trim_end-quoted (c ∷ s) h)

module _ (is_whitespace : ℕ → Bool) (spaces : Spaces is_whitespace) where
  trim_end_quote : Unit {0} → trim_end is_whitespace (b'"' ∷ []) ≡ b'"' ∷ []
  unfolding trim_end
  trim_end_quote u = rw (spaces.quote_visible) refl

  -- What is behind the colon.
  trim_value : (value : Text) → trim is_whitespace (b' ' ∷ quoted value) ≡ quoted value
  unfolding trim
  trim_value value =
      ap (trim_end is_whitespace) (
        trim_start_space is_whitespace b' ' (quoted value) spaces.space
        ∙ trim_start_visible is_whitespace b'"' (value ++ b'"' ∷ []) spaces.quote_visible)
      ∙ trim_end-append is_whitespace (b'"' ∷ value) b'"' [] (trim_end_quote tt)

  letters :
      (s : Text)
      → all (λ c. leb b'a' c && leb c b'z') s ≡ true
      → All (λ c. is_whitespace c ≡ false) s
  letters [] h = tt
  letters (c ∷ s) h =
      let (hc, hs) = all-cons (λ x. leb b'a' x && leb x b'z') c s h in
      (spaces.letters_visible c hc, letters s hs)

  visible_letters :
      (s : Text) → all (λ c. leb b'a' c && leb c b'z') s ≡ true → trim is_whitespace s ≡ s
  visible_letters s h = trim_visible is_whitespace s (letters s h)

  metadata_line-name :
      (found : Metadata) (value : Text)
      → all is_plain value ≡ true
      → metadata_line is_whitespace found (codes "name: " ++ quoted value) ≡ (some value, found.1)
  unfolding metadata_line split_once text_eq all
  metadata_line-name found value h =
      rw (visible_letters (codes "name") refl, trim_value value, trim-quoted value h) refl

  metadata_line-description :
      (found : Metadata) (value : Text)
      → all is_plain value ≡ true
      → metadata_line is_whitespace found (codes "description: " ++ quoted value)
        ≡ (found.0, some value)
  unfolding metadata_line split_once text_eq all
  metadata_line-description found value h =
      rw (visible_letters (codes "description") refl, trim_value value, trim-quoted value h) refl

  -- A front matter with a name and a description.
  abbrev pub front_matter : (name description : Text) → Text
  front_matter name description =
      codes "name: \"" ++ (name ++ (codes "\"\ndescription: \"" ++ (description ++ codes "\"")))

  before-description :
      (t : Text) {u : Text}
      → before marker t ≡ some u
      → before marker (codes "\"\ndescription: \"" ++ t) ≡ some (codes "\"\ndescription: \"" ++ u)
  unfolding before starts_with
  before-description t h = rw (h) refl

  before-front_matter :
      (name description body : Text)
      → all is_plain name ≡ true
      → all is_plain description ≡ true
      → before marker (
          codes "name: \""
          ++ (name
              ++ (codes "\"\ndescription: \"" ++ (description ++ (codes "\"\n---\n" ++ body)))))
        ≡ some (front_matter name description)
  unfolding before starts_with all
  before-front_matter name description body h h' =
      before-visible (codes "name: \"")
        (name ++ (codes "\"\ndescription: \"" ++ (description ++ (codes "\"\n---\n" ++ body)))) refl
        (before-visible name
          (codes "\"\ndescription: \"" ++ (description ++ (codes "\"\n---\n" ++ body)))
          (plain_visible name h)
          (before-description (description ++ (codes "\"\n---\n" ++ body)) (
            before-visible description (codes "\"\n---\n" ++ body) (plain_visible description h')
              refl)))

  lines-front_matter :
      (name description : Text)
      → all is_plain name ≡ true
      → all is_plain description ≡ true
      → lines (front_matter name description)
        ≡ (codes "name: " ++ quoted name) ∷ (codes "description: " ++ quoted description) ∷ []
  unfolding lines all
  lines-front_matter name description h h' =
      let last : lines (codes "description: \"" ++ (description ++ codes "\""))
          ≡ (codes "description: " ++ quoted description) ∷ [] =
        lines-visible (codes "description: \"" ++ description) b'"' [] []
          (plain_visible description h') refl refl in
      lines-visible (codes "name: \"" ++ name) b'"'
        (codes "\ndescription: \"" ++ (description ++ codes "\""))
        (lines (codes "description: \"" ++ (description ++ codes "\""))) (plain_visible name h) refl
        refl
      ∙ ap (λ ls. (codes "name: " ++ quoted name) ∷ ls) last

  -- A file that starts with a front matter, in which a name and a description stand in quotes, without
  -- quotes and line ends of their own, has that name and that description, whatever comes behind.
  pub parse_yaml_metadata-front_matter :
      (name description body : Text)
      → all is_plain name ≡ true
      → all is_plain description ≡ true
      → parse_yaml_metadata is_whitespace (
          codes "---\nname: \""
          ++ (name
              ++ (codes "\"\ndescription: \"" ++ (description ++ (codes "\"\n---\n" ++ body)))))
        ≡ (some name, some description)
  unfolding parse_yaml_metadata strip_prefix metadata_lines
  parse_yaml_metadata-front_matter name description body h h' =
      ap
        (λ o. elim o [
          | none ↦ (none, none)
          | some yaml_content ↦ metadata_lines is_whitespace (none, none) (lines yaml_content)
        ])
        (before-front_matter name description body h h')
      ∙ ap (metadata_lines is_whitespace (none, none)) (lines-front_matter name description h h')
      ∙ ap (λ m. metadata_line is_whitespace m (codes "description: " ++ quoted description))
          (metadata_line-name (none, none) name h)
      ∙ metadata_line-description (some name, none) description h'
