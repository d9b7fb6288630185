-- ===== src/Procfs/Row.antt =====
-- internal/localdiagnosis/procfs.go: a row of a table, and the table.
use route_doc.Common.{
  ℕ, ◌*◌, ◌^◌, Bool, true, false, not, ◌&&◌, ◌||◌, List, [], ◌∷◌, Option, none, some, Text, codes,
  length, ltb, ◌==◌, eq_number, eq_text, text_lt, sort, if◌then◌else◌,
}
use route_doc.Model.Entities.{Addr}
use route_doc.Model.Enums.{AddressFamily, BindSemantics, eq_address_family, address_family_text}
use route_doc.Ids.{parse_uint}
use route_doc.Procfs.Scan.{split_lines, fields, before_colon, parse_hex}
use route_doc.Procfs.Endpoint.{endpoint_parts, parse_proc_local, valid_proc_endpoint, binding_for}

pub record Listener : Type 0 where
  pub family : AddressFamily
  pub address : Addr
  pub port : ℕ
  pub uid : ℕ
  pub inode : ℕ
  pub binding : BindSemantics

abbrev pub max_proc_file_bytes : ℕ
max_proc_file_bytes = 8 * 2 ^ 20

abbrev is_some : {A : Type 0} → Option A → Bool
is_some none = false
is_some (some a) = true

unfoldable pub valid_hex : Text → Bool
valid_hex value = is_some (parse_hex value)

-- `validDecimal`; `parse_uint` is `parseDecimalUint`.
unfoldable pub valid_decimal : Text → Bool
valid_decimal value = is_some (parse_uint value)

unfoldable pub valid_proc_row_id : Text → Bool
valid_proc_row_id value = elim (before_colon value) [ none ↦ false | some id ↦ valid_decimal id ]

unfoldable pub valid_hex_pair : Text → Bool
valid_hex_pair value = elim (endpoint_parts value) [
  | none ↦ false
  | some (a, b) ↦ valid_hex a && valid_hex b
]

-- The ten fields that every row has.
pub record Row : Type 0 where
  pub sl : Text
  pub local : Text
  pub remote : Text
  pub state : Text
  pub queues : Text
  pub timer : Text
  pub retransmits : Text
  pub uid : Text
  pub timeout : Text
  pub inode : Text

unfoldable pub row_of : List Text → Option Row
row_of (a ∷ b ∷ c ∷ d ∷ e ∷ f ∷ g ∷ h ∷ i ∷ j ∷ more) = some (record {
  sl = a;
  local = b;
  remote = c;
  state = d;
  queues = e;
  timer = f;
  retransmits = g;
  uid = h;
  timeout = i;
  inode = j;
})
row_of _ = none

-- The tests on the fields, those on the state included
unfoldable pub well_formed : AddressFamily → Row → Bool
well_formed family r =
    valid_proc_row_id r.sl
    && (valid_proc_endpoint r.local family
        && (valid_proc_endpoint r.remote family
            && (valid_hex_pair r.queues
                && (valid_hex_pair r.timer
                    && (valid_hex r.retransmits
                        && (valid_decimal r.uid
                            && (valid_decimal r.timeout
                                && (valid_decimal r.inode
                                    && ((length r.state == 2) && valid_hex r.state)))))))))

-- What a line adds: nothing, nothing but that the table is incomplete, or a listener.
pub data LineResult : Type 0 where
  skipped malformed : LineResult
  listens : Listener → LineResult

-- A row whose fields are well-formed
unfoldable pub listener_of : AddressFamily → ℕ → Row → LineResult
listener_of family port r =
    if not (r.state == codes "0A")
    then LineResult.skipped
    else elim (parse_proc_local r.local family) [
      | none ↦ LineResult.malformed
      | some (address, row_port) ↦
          if not (row_port == port) then LineResult.skipped else elim (parse_uint r.uid) [
            | none ↦ LineResult.malformed
            | some uid ↦ elim (parse_uint r.inode) [
              | none ↦ LineResult.malformed
              | some inode ↦
                  if inode == 0
                  then LineResult.malformed
                  else LineResult.listens (record {
                    family = family;
                    address = address;
                    port = row_port;
                    uid = uid;
                    inode = inode;
                    binding = binding_for address;
                  })
            ]
          ]
    ]

-- One round of the loop over the lines, for the fields of a line
unfoldable pub parse_fields : AddressFamily → ℕ → List Text → LineResult
parse_fields family port [] = LineResult.skipped
parse_fields family port (first ∷ more) =
    if first == codes "sl" then LineResult.skipped else elim (row_of (first ∷ more)) [
      | none ↦ LineResult.malformed
      | some r ↦
          if not (well_formed family r) then LineResult.malformed else listener_of family port r
    ]

-- The listeners of the lines, and whether all lines are well-formed
unfoldable pub parse_lines : AddressFamily → ℕ → List Text → List Listener × Bool
parse_lines family port [] = ([], true)
parse_lines family port (line ∷ lines) =
    let (ls, complete) = parse_lines family port lines in
    elim (parse_fields family port (fields line)) [
      | LineResult.skipped ↦ (ls, complete)
      | LineResult.malformed ↦ (ls, false)
      | LineResult.listens l ↦ (l ∷ ls, complete)
    ]

-- `a.Compare(b) < 0`: by the number of bits, then by value, then by zone
unfoldable pub less_addr : Addr → Addr → Bool
less_addr Addr.no_addr Addr.no_addr = false
less_addr Addr.no_addr (Addr.v4 n) = true
less_addr Addr.no_addr (Addr.v6 n z) = true
less_addr (Addr.v4 m) Addr.no_addr = false
less_addr (Addr.v4 m) (Addr.v4 n) = ltb m n
less_addr (Addr.v4 m) (Addr.v6 n z) = true
less_addr (Addr.v6 m y) Addr.no_addr = false
less_addr (Addr.v6 m y) (Addr.v4 n) = false
less_addr (Addr.v6 m y) (Addr.v6 n z) = ltb m n || ((m == n) && text_lt y z)

-- `!=` on addresses, together with the order: one of them is less.
unfoldable pub less_listener : Listener → Listener → Bool
less_listener a b =
    if not (a.family == b.family)
    then text_lt (address_family_text a.family) (address_family_text b.family)
    else if less_addr a.address b.address || less_addr b.address a.address
    then less_addr a.address b.address
    else if not (a.port == b.port)
    then ltb a.port b.port
    else ltb a.inode b.inode

unfoldable pub sort_listeners : List Listener → List Listener
sort_listeners = sort less_listener

-- `parseProcTableWithStatus`
unfoldable pub parse_proc_table : Text → AddressFamily → ℕ → List Listener × Bool
parse_proc_table bytes family port =
    if ltb max_proc_file_bytes (length bytes)
    then ([], false)
    else let (ls, complete) = parse_lines family port (split_lines bytes) in
      (sort_listeners ls, complete)
