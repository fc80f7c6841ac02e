-- ===== src/Commands/Groups.antt =====
-- cmd/neth-cert/main.go: the groups of the --groups flag.
use neth.Base.{◌≡◌, ◌≢◌, refl, ap, ◌∙◌, false, List, [], ◌∷◌, All, ◌=?◌, bytes_key, if◌then◌else◌}
use neth.Base.Text.{Text, text, trim_space, trim_left, trim_right, is_empty}
use neth.Base.Split.{split, onto_first, join, Lacks, split_last, split-append}

-- The loop of cmdSign over the parts of the flag.
unfoldable pub clean_parts : List Text → List Text
clean_parts [] = []
clean_parts (g ∷ parts) =
    let rest = clean_parts parts in
    let trimmed = trim_space g in if trimmed =? [] then rest else trimmed ∷ rest

unfoldable pub parse_groups : Text → List Text
unfolding clean_parts
parse_groups groups = if groups =? [] then [] else clean_parts (split b',' groups)

-- The groups as printCertSummary shows them.
unfoldable pub show_groups : List Text → Text
show_groups groups = join (text ", ") groups

-- A group's name that is not empty, has no space at an end and no comma.
abbrev pub IsName : Text → Type 0
IsName g = (g ≢ []) × (trim_space g ≡ g) × Lacks b',' g

trim_left-space : (r : Text) → trim_left (if is_empty r then [] else b' ' ∷ r) ≡ trim_left r
unfolding trim_left
trim_left-space [] = refl
trim_left-space (c ∷ r) = refl

trim_space-space : (s : Text) → trim_space (b' ' ∷ s) ≡ trim_space s
unfolding trim_space trim_right
trim_space-space s = trim_left-space (trim_right s)

-- A space in front of the first part is trimmed.
clean_parts-space : (parts : List Text) → clean_parts (onto_first b' ' parts) ≡ clean_parts parts
unfolding clean_parts
clean_parts-space [] = unfold trim_space trim_left trim_right in refl
clean_parts-space (part ∷ parts) = rw (trim_space-space part) refl

clean_parts-name :
    (g : Text) (parts : List Text) → IsName g → clean_parts (g ∷ parts) ≡ g ∷ clean_parts parts
unfolding clean_parts
clean_parts-name [] parts (some_name, trimmed, lacks) = absurd (some_name refl)
clean_parts-name (c ∷ g) parts (some_name, trimmed, lacks) = rw trimmed refl

split-space : (s : Text) → clean_parts (split b',' (b' ' ∷ s)) ≡ clean_parts (split b',' s)
unfolding split
split-space s = clean_parts-space (split b',' s)

parts-show :
    (g : Text) (groups : List Text)
    → IsName g
    → All IsName groups
    → clean_parts (split b',' (show_groups (g ∷ groups))) ≡ g ∷ groups
unfolding show_groups join
parts-show g [] name all =
    rw (split_last b',' g name.2) (clean_parts-name g [] name ∙ (unfold clean_parts in refl))
parts-show g (h ∷ groups) name (next, all) =
    let later = join (text ", ") (h ∷ groups) in
    rw (split-append b',' g (b' ' ∷ later) name.2) (
      clean_parts-name g (split b',' (b' ' ∷ later)) name
      ∙ ap (λ ps. g ∷ ps) (split-space later ∙ parts-show h groups next all))

-- The text of a first name is not empty.
shown : (g : Text) (groups : List Text) → g ≢ [] → (show_groups (g ∷ groups) =? []) ≡ false
unfolding show_groups join
shown [] groups h = absurd (h refl)
shown (c ∷ g) [] h = refl
shown (c ∷ g) (next ∷ groups) h = refl

-- The groups that `print` shows for a certificate, given to `sign` again, are the same groups, when
-- each has a name that is not empty, has no space at an end and no comma.
pub parse_groups-show_groups :
    (groups : List Text) → All IsName groups → parse_groups (show_groups groups) ≡ groups
unfolding parse_groups
parse_groups-show_groups [] all = unfold show_groups join in refl
parse_groups-show_groups (g ∷ groups) (name, all) =
    rw (shown g groups name.0) (parts-show g groups name all)
