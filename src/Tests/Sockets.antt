-- ===== src/Tests/Sockets.antt =====
-- A table of sockets at concrete inputs.
use route_doc.Common.{
  ◌≡◌, ◌≢◌, ◌↔◌, refl, [], ◌∷◌, List, some, true, Text, codes, arith, Exists, All, length, ◌*◌, ◌+◌,
  ℕ,
}
use route_doc.Model.Entities.{Addr}
use route_doc.Model.Enums.{AddressFamily, BindSemantics}
use route_doc.Procfs.Scan.{split_lines, fields}
use route_doc.Procfs.Endpoint.{decode_proc_address, reverse_words, address_of, address_width}
use route_doc.Procfs.Row.{Listener, LineResult, parse_fields, parse_proc_table}
use route_doc.Procfs.Rows.{Lists}
use route_doc.Procfs.Table.{parse_proc_table_iff}
use route_doc.Procfs.Words.{decode_proc_address-print_words, print_words}

abbrev table : Text
table =
    codes
      "  sl  local_address rem_address   st\n   0: 0100007F:1F90 00000000:0000 0A 00000000:00000000 00:00000000 00000000  1000        0 12345 1\n"

abbrev loopback_listener : Listener
loopback_listener = record {
  family = AddressFamily.ipv4;
  address = Addr.v4 0x7f000001;
  port = 8080;
  uid = 1000;
  inode = 12345;
  binding = BindSemantics.loopback;
}

table_lists_one : parse_proc_table table AddressFamily.ipv4 8080 ≡ (loopback_listener ∷ [], true)
unfolding route_doc.Common.same route_doc.Common.any route_doc.Common.all route_doc.Common.keep
    route_doc.Common.insert_sorted route_doc.Common.sort route_doc.Common.Text-discrete
    route_doc.Common.text_eq route_doc.Common.text_lt route_doc.Common.starts_with
    route_doc.Common.contains route_doc.Procfs.Scan.split_lines route_doc.Procfs.Scan.space_width
    route_doc.Procfs.Scan.fields route_doc.Procfs.Scan.before_colon
    route_doc.Procfs.Scan.cut_last_colon route_doc.Procfs.Scan.hex_digit
    route_doc.Procfs.Scan.hex_value route_doc.Procfs.Scan.parse_hex route_doc.Procfs.Scan.hex_decode
    route_doc.Procfs.Endpoint.reverse_words route_doc.Procfs.Endpoint.big_endian
    route_doc.Procfs.Endpoint.address_width route_doc.Procfs.Endpoint.address_of
    route_doc.Procfs.Endpoint.decode_proc_address route_doc.Procfs.Endpoint.is_ip_family
    route_doc.Procfs.Endpoint.endpoint_parts route_doc.Procfs.Endpoint.parse_proc_endpoint
    route_doc.Procfs.Endpoint.parse_proc_local route_doc.Procfs.Endpoint.valid_proc_endpoint
    route_doc.Procfs.Endpoint.binding_for route_doc.Procfs.Row.valid_hex
    route_doc.Procfs.Row.valid_decimal route_doc.Procfs.Row.valid_proc_row_id
    route_doc.Procfs.Row.valid_hex_pair route_doc.Procfs.Row.row_of route_doc.Procfs.Row.well_formed
    route_doc.Procfs.Row.listener_of route_doc.Procfs.Row.parse_fields
    route_doc.Procfs.Row.parse_lines route_doc.Procfs.Row.less_addr
    route_doc.Procfs.Row.less_listener route_doc.Procfs.Row.sort_listeners
    route_doc.Procfs.Row.parse_proc_table route_doc.Ids.is_digit route_doc.Ids.is_bad_rune
    route_doc.Ids.parse_uint route_doc.Ids.valid_id route_doc.Ids.generated_number
    route_doc.Ids.text_compare route_doc.Ids.compare_uint_ids route_doc.Ids.compare_claim_id
    route_doc.Ids.compare_finding_id route_doc.Ids.padded route_doc.Ids.claim_id
    route_doc.Ids.finding_id route_doc.Model.Enums.VantageKind-discrete
    route_doc.Model.Enums.EntityKind-discrete route_doc.Model.Enums.ScopeKind-discrete
    route_doc.Model.Enums.GoalKind-discrete route_doc.Model.Enums.AddressFamily-discrete
    route_doc.Model.Enums.Transport-discrete route_doc.Model.Enums.BindSemantics-discrete
    route_doc.Model.Enums.transport_text route_doc.Model.Enums.address_family_text
    route_doc.Model.Enums.bind_semantics_text native.Mathlib.Decide.ℕ_discrete
    route_doc.Decimal.Value.value
table_lists_one = refl

parse_proc_table_iff_example :
    ((l : Listener)
      → Exists (λ m. m ≡ l) (parse_proc_table table AddressFamily.ipv4 8080).0
        ↔ Exists (λ line. Lists AddressFamily.ipv4 8080 l (fields line)) (split_lines table))
    × (((parse_proc_table table AddressFamily.ipv4 8080).1 ≡ true)
        ↔ All
            (λ line. parse_fields AddressFamily.ipv4 8080 (fields line) ≢ LineResult.malformed)
            (split_lines table))
parse_proc_table_iff_example = parse_proc_table_iff table AddressFamily.ipv4 8080 (omega arith)

decode_proc_address-print_words_example :
    decode_proc_address (print_words (127 ∷ 0 ∷ 0 ∷ 1 ∷ [])) AddressFamily.ipv4
    ≡ some (address_of AddressFamily.ipv4 (127 ∷ 0 ∷ 0 ∷ 1 ∷ []))
unfolding address_width route_doc.Common.same route_doc.Common.Text-discrete
    route_doc.Model.Enums.VantageKind-discrete route_doc.Model.Enums.EntityKind-discrete
    route_doc.Model.Enums.ScopeKind-discrete route_doc.Model.Enums.GoalKind-discrete
    route_doc.Model.Enums.AddressFamily-discrete route_doc.Model.Enums.Transport-discrete
    route_doc.Model.Enums.BindSemantics-discrete native.Mathlib.Decide.ℕ_discrete
decode_proc_address-print_words_example =
    decode_proc_address-print_words AddressFamily.ipv4 (127 ∷ 0 ∷ 0 ∷ 1 ∷ []) refl
      (omega arith, (omega arith, (omega arith, (omega arith, tt))))
