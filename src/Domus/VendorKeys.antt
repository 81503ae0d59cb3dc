-- ===== src/Domus/VendorKeys.antt =====
-- The vendors' keys, internal/domus/vendorkeys.go. Text is bytes; the base64 decoder is a parameter.
use openqiara.Prelude.{
  ℕ, Bool, true, false, ◌&&◌, ◌||◌, Option, none, some, List, [], ◌∷◌, ltb, leb, ◌==◌, length, take,
  drop, if◌then◌else◌,
}

pub record VendorKey : Type 0 where
  pub name : List ℕ
  pub key : List ℕ

-- The white space of `strings.TrimSpace`, in ASCII.
abbrev pub is_space : ℕ → Bool
is_space c = c == b' ' || (leb 9 c && leb c 13)

unfoldable pub trim_left : List ℕ → List ℕ
trim_left [] = []
trim_left (c ∷ cs) = if is_space c then trim_left cs else c ∷ cs

unfoldable pub trim_right : List ℕ → List ℕ
trim_right [] = []
trim_right (c ∷ cs) = elim (trim_right cs) [
  | [] ↦ if is_space c then [] else c ∷ []
  | d ∷ ds ↦ c ∷ d ∷ ds
]

unfoldable pub trim_space : List ℕ → List ℕ
unfolding trim_left trim_right
trim_space cs = trim_right (trim_left cs)

-- `strings.SplitN(line, ":", 2)`; `none` if it has no colon.
unfoldable pub split_colon : List ℕ → Option (List ℕ × List ℕ)
split_colon [] = none
split_colon (c ∷ cs) =
    if c == b':'
    then some ([], cs)
    else elim (split_colon cs) [ none ↦ none | some (name, b64) ↦ some (c ∷ name, b64) ]

module _ (decode : List ℕ → Option (List ℕ)) where
  -- A line of the file; `none` is a line that is skipped.
  unfoldable pub parse_line : List ℕ → Option VendorKey
  unfolding trim_space split_colon
  parse_line raw = elim (trim_space raw) [
    | [] ↦ none
    | c ∷ cs ↦ if c == b'#' then none else elim (split_colon (c ∷ cs)) [
      | none ↦ none
      | some (name, b64) ↦ elim (decode (trim_space b64)) [
        | none ↦ none
        | some key ↦
            if length key == 32 then some (record { name = trim_space name; key = key }) else none
      ]
    ]
  ]

  unfoldable pub load_vendor_keys : List (List ℕ) → List VendorKey
  unfolding parse_line
  load_vendor_keys [] = []
  load_vendor_keys (line ∷ lines) = elim (parse_line line) [
    | none ↦ load_vendor_keys lines
    | some key ↦ key ∷ load_vendor_keys lines
  ]

unfoldable pub match_prefix : List ℕ → List ℕ → Bool
match_prefix [] [] = true
match_prefix [] (b ∷ bs) = false
match_prefix (a ∷ as') [] = false
match_prefix (a ∷ as') (b ∷ bs) = a == b && match_prefix as' bs

unfoldable pub find_key : List ℕ → List VendorKey → Option VendorKey
unfolding match_prefix
find_key prefix [] = none
find_key prefix (k ∷ ks) = if match_prefix prefix (take 6 k.key) then some k else find_key prefix ks

unfoldable pub match_beacon : List ℕ → List VendorKey → Option VendorKey
unfolding find_key
match_beacon beacon keys =
    if ltb (length beacon) 7 then none else find_key (take 6 (drop 1 beacon)) keys
