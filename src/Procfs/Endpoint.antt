-- ===== src/Procfs/Endpoint.antt =====
-- internal/localdiagnosis/procfs.go: addresses and endpoints in a row.
use route_doc.Common.{
  ℕ, ◌-◌, replicate, ◌+◌, ◌*◌, Bool, true, false, not, ◌||◌, List, [], ◌∷◌, ◌++◌, Option, none,
  some, Text, length, ltb, ◌==◌, eq_number, eq_text, if◌then◌else◌,
}
use route_doc.Model.Entities.{Addr}
use route_doc.Model.Enums.{AddressFamily, BindSemantics, eq_address_family}
use route_doc.Procfs.Scan.{cut_last_colon, parse_hex, hex_decode}

-- The loop that reverses each word of four bytes.
unfoldable pub reverse_words : List ℕ → List ℕ
reverse_words (a ∷ b ∷ c ∷ d ∷ rest) = d ∷ c ∷ b ∷ a ∷ reverse_words rest
reverse_words (a ∷ b ∷ c ∷ []) = a ∷ b ∷ c ∷ []
reverse_words (a ∷ b ∷ []) = a ∷ b ∷ []
reverse_words (a ∷ []) = a ∷ []
reverse_words [] = []

-- The number of an address whose bytes come in network order
unfoldable pub big_endian : ℕ → List ℕ → ℕ
big_endian n [] = n
big_endian n (b ∷ bs) = big_endian (n * 256 + b) bs

unfoldable pub address_width : AddressFamily → ℕ
address_width family = if family == AddressFamily.ipv6 then 32 else 8

-- `netip.AddrFrom4`, or `netip.AddrFrom16` of the bytes, which are copied to the front of 16
unfoldable pub address_of : AddressFamily → List ℕ → Addr
address_of family raw =
    if family == AddressFamily.ipv4
    then Addr.v4 (big_endian 0 raw)
    else Addr.v6 (big_endian 0 (raw ++ replicate (16 - length raw) 0)) []

unfoldable pub decode_proc_address : Text → AddressFamily → Option Addr
decode_proc_address value family =
    if not (length value == address_width family) then none else elim (hex_decode value) [
      | none ↦ none
      | some raw ↦ some (address_of family (reverse_words raw))
    ]

unfoldable pub is_ip_family : AddressFamily → Bool
is_ip_family family = (family == AddressFamily.ipv4) || (family == AddressFamily.ipv6)

-- The parts of an endpoint, both of which have to be there
unfoldable pub endpoint_parts : Text → Option (Text × Text)
endpoint_parts value = elim (cut_last_colon value) [
  | none ↦ none
  | some (address, port) ↦ if (address == []) || (port == []) then none else some (address, port)
]

unfoldable pub parse_proc_endpoint : Text → AddressFamily → Option (Addr × ℕ)
parse_proc_endpoint value family =
    if not (is_ip_family family) then none else elim (endpoint_parts value) [
      | none ↦ none
      | some (address_text, port_text) ↦ elim (parse_hex port_text) [
        | none ↦ none
        | some port ↦
            if (port == 0) || ltb 65535 port
            then none
            else elim (decode_proc_address address_text family) [
              | none ↦ none
              | some address ↦ some (address, port)
            ]
      ]
    ]

unfoldable pub parse_proc_local : Text → AddressFamily → Option (Addr × ℕ)
parse_proc_local value family = elim (parse_proc_endpoint value family) [
  | none ↦ none
  | some (address, port) ↦ if port == 0 then none else some (address, port)
]

-- A port of 0 is valid here.
unfoldable pub valid_proc_endpoint : Text → AddressFamily → Bool
valid_proc_endpoint value family =
    if not (is_ip_family family) then false else elim (endpoint_parts value) [
      | none ↦ false
      | some (address_text, port_text) ↦ elim (parse_hex port_text) [
        | none ↦ false
        | some port ↦
            if ltb 65535 port
            then false
            else elim (decode_proc_address address_text family) [ none ↦ false | some a ↦ true ]
      ]
    ]

unfoldable pub binding_for : Addr → BindSemantics
binding_for Addr.no_addr = BindSemantics.exact
binding_for (Addr.v4 n) =
    if n == 0
    then BindSemantics.wildcard
    else if n == 0x7f000001
    then BindSemantics.loopback
    else BindSemantics.exact
binding_for (Addr.v6 n zone) =
    if not (zone == [])
    then BindSemantics.exact
    else if n == 0
    then BindSemantics.wildcard
    else if n == 1
    then BindSemantics.loopback
    else BindSemantics.exact
