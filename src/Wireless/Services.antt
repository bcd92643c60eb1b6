-- ===== src/Wireless/Services.antt =====
-- The texts that adb prints about pairing, in crates/quadcontrol-android/src/wireless.rs: the mDNS
-- services, the guid of a pairing, and the version.
use quad_control.Base.{
  ℕ, ◌^◌, Bool, true, false, not, ◌&&◌, ◌||◌, List, [], ◌∷◌, ◌++◌, Option, none, some,
  if◌then◌else◌, is_empty, all, find, filter, find_map, filter_map, ◌==◌,
}
use quad_control.Base.Text.Decimal.{decimal}
use quad_control.Base.Text.{
  Text, codes, text_eq, starts_with, strip_prefix, strip_suffix, contains, rsplit_once, lines,
  split_whitespace, trim_end_while, eq_ignore_ascii_case, is_ascii_alphanumeric, parse_uint,
}

pub record MdnsService : Type 0 where
  pub instance_name : Text
  pub service : Text
  pub address : Text
  pub port : ℕ  -- u16

abbrev pub pairing_type : Text
pairing_type = codes "_adb-tls-pairing._tcp"

abbrev pub connect_type : Text
connect_type = codes "_adb-tls-connect._tcp"

abbrev tls_infix : Text
tls_infix = codes "._adb-tls-"

-- `trim_end_matches('.')`
abbrev trim_dots : Text → Text
trim_dots = trim_end_while (λ c. c == b'.')

-- `iter().position(p)`, as what stands before the item, the item, and what stands after it
abbrev Parts : Type 0
Parts = List Text × Text × List Text

part_at : (Text → Bool) → List Text → Option Parts
part_at p [] = none
part_at p (x ∷ xs) = elim (p x) [
  | true ↦ some ([], x, xs)
  | false ↦ elim (part_at p xs) [ none ↦ none | some (a, y, b) ↦ some (x ∷ a, y, b) ]
]

last : List Text → Option Text
last [] = none
last (x ∷ []) = some x
last (x ∷ y ∷ r) = last (y ∷ r)

-- `split_once` on a text
split_once_at : Text → Text → Option (Text × Text)
split_once_at p [] = none
split_once_at p (c ∷ cs) = elim (strip_prefix p (c ∷ cs)) [
  | some r ↦ some ([], r)
  | none ↦ elim (split_once_at p cs) [ none ↦ none | some (a, b) ↦ some (c ∷ a, b) ]
]

unfoldable pub split_endpoint : Text → Option (Text × ℕ)
unfolding rsplit_once parse_uint
split_endpoint value = elim (rsplit_once b':' value) [
  | none ↦ none
  | some (address, port) ↦
      let parsed = parse_uint (2 ^ 16) port in
      if is_empty address then none else elim parsed [ none ↦ none | some n ↦ some (address, n) ]
]

-- The instance, the service and the fields behind it: the type is a field of its own, or the end
-- of the instance's field.
service_fields : List Text → Option (Text × Text × List Text)
unfolding part_at last split_once_at trim_end_while text_eq contains
service_fields fields =
    elim (part_at (λ f. text_eq (trim_dots f) pairing_type || text_eq (trim_dots f) connect_type)
      fields) [
        | some (before, f, after) ↦ elim (last before) [
          | none ↦ none
          | some name ↦ some (trim_dots name, trim_dots f, after)
        ]
        | none ↦ elim (part_at (contains tls_infix) fields) [
          | none ↦ none
          | some (before, f, after) ↦ elim (split_once_at tls_infix f) [
            | none ↦ none
            | some (name, rest) ↦ some (name, codes "_adb-tls-" ++ trim_dots rest, after)
          ]
        ]
      ]

-- the `or_else`: address and port as two fields
two_fields : List Text → Option (Text × ℕ)
unfolding parse_uint
two_fields (address ∷ port ∷ rest) = elim (parse_uint (2 ^ 16) port) [
  | none ↦ none
  | some n ↦ some (address, n)
]
two_fields _ = none

abbrev or_else : Option (Text × ℕ) → Option (Text × ℕ) → Option (Text × ℕ)
or_else (some a) o = some a
or_else none o = o

endpoint_of : List Text → Option (Text × ℕ)
unfolding split_endpoint two_fields
endpoint_of fields = or_else (find_map split_endpoint fields) (two_fields fields)

-- `fields.len() < 2 || fields[0].eq_ignore_ascii_case("List")`
is_skipped : List Text → Bool
unfolding eq_ignore_ascii_case
is_skipped (first ∷ second ∷ rest) = eq_ignore_ascii_case first (codes "List")
is_skipped _ = true

service_of_line : Text → Option MdnsService
unfolding service_fields endpoint_of is_skipped split_whitespace
service_of_line line =
    let fields = split_whitespace line in
    let found = service_fields fields in
    if is_skipped fields then none else elim found [
      | none ↦ none
      | some (name, service, rest) ↦ elim (endpoint_of rest) [
        | none ↦ none
        | some (address, port) ↦
            some
              (record { instance_name = name; service = service; address = address; port = port })
      ]
    ]

unfoldable pub parse_mdns_services : Text → List MdnsService
unfolding service_of_line lines
parse_mdns_services output = filter_map service_of_line (lines output)

unfoldable pub find_pairing_services : List MdnsService → Text → List MdnsService
unfolding text_eq
find_pairing_services services name =
    filter (λ s. text_eq s.service pairing_type && text_eq s.instance_name name) services

unfoldable pub serial_matches_guid : Text → Text → Bool
unfolding text_eq strip_prefix starts_with
serial_matches_guid serial guid =
    text_eq serial guid
    || (elim (strip_prefix guid serial) [ none ↦ false | some rest ↦ starts_with (b'.' ∷ []) rest ])

unfoldable pub connect_service_for_guid : List MdnsService → Text → Option MdnsService
unfolding text_eq serial_matches_guid
connect_service_for_guid services guid =
    find (λ s. text_eq s.service connect_type && serial_matches_guid s.instance_name guid) services

is_guid_rest : Text → Bool
is_guid_rest rest = not (is_empty rest) && all (λ c. is_ascii_alphanumeric c || c == b'-') rest

guid_of_word : Text → Option Text
unfolding strip_prefix strip_suffix is_guid_rest
guid_of_word word = elim (strip_prefix (codes "[guid=") word) [
  | none ↦ none
  | some rest ↦ elim (strip_suffix (b']' ∷ []) rest) [
    | none ↦ none
    | some token ↦ elim (strip_prefix (codes "adb-") token) [
      | none ↦ none
      | some name ↦ if is_guid_rest name then some token else none
    ]
  ]
]

unfoldable pub find_guid : Text → Option Text
unfolding guid_of_word split_whitespace
find_guid output = find_map guid_of_word (split_whitespace output)

-- `format!("{}:{}", service.address, service.port)`
unfoldable pub endpoint_text : MdnsService → Text
unfolding decimal
endpoint_text s = s.address ++ b':' ∷ decimal s.port
