-- ===== src/Procfs/Rows.antt =====
-- internal/localdiagnosis/procfs.go: which listeners a table gives, and when it is complete.
use mathlib.Core.Path.{subst}
use route_doc.Common.{
  ℕ, ◌≡◌, ◌≢◌, inl, inr, refl, sym, true, false, List, [], ◌∷◌, some, Text, codes, arith,
  Bool-cases, Option-cases, ◌==◌, ==_iff, eq_number, eq_text,
}
use route_doc.Model.Enums.{AddressFamily}
use route_doc.Ids.{parse_uint}
use route_doc.Procfs.Scan.{before_colon}
use route_doc.Procfs.Endpoint.{parse_proc_local, binding_for}
use route_doc.Procfs.Row.{
  Listener, Row, LineResult, row_of, well_formed, listener_of, parse_fields, valid_proc_row_id,
}

-- The fields are those of a well-formed row in the listening state, and the listener is what the
-- row says: its address, the port, its user and a socket that is not 0.
pub record Lists (family : AddressFamily) (port : ℕ) (l : Listener) (fs : List Text) : Type 0 where
  pub row : Row
  pub is_row : row_of fs ≡ some row
  pub formed : well_formed family row ≡ true
  pub listening : row.state ≡ codes "0A"
  pub endpoint : parse_proc_local row.local family ≡ some (l.address, port)
  pub user : parse_uint row.uid ≡ some l.uid
  pub socket : parse_uint row.inode ≡ some l.inode
  pub socket_known : l.inode ≢ 0
  pub of_family : l.family ≡ family
  pub on_port : l.port ≡ port
  pub bound : l.binding ≡ binding_for l.address

listener_of-Lists :
    (family : AddressFamily) (port : ℕ) (l : Listener) (r : Row) (fs : List Text)
    → row_of fs ≡ some r
    → well_formed family r ≡ true
    → listener_of family port r ≡ LineResult.listens l
    → Lists family port l fs
unfolding listener_of
listener_of-Lists family port l r fs is formed h =
    let state = ==_iff r.state (codes "0A") in
    elim (Option-cases (parse_proc_local r.local family)) [
      | inl n ↦ absurd (ground arith)
      | inr ((address, row_port), n) ↦ elim (Option-cases (parse_uint r.uid)) [
        | inl u ↦ absurd (ground arith)
        | inr (uid, u) ↦ elim (Option-cases (parse_uint r.inode)) [
          | inl i ↦ absurd (ground arith)
          | inr (inode, i) ↦
              let p : row_port ≡ port = ground arith in
              let made : record {
                family = family;
                address = address;
                port = row_port;
                uid = uid;
                inode = inode;
                binding = binding_for address;
              }
                  ≡ l =
                ground arith in
              subst (λ x. Lists family port x fs) made
                (record {
                  row = r;
                  is_row = is;
                  formed = formed;
                  listening = ground arith;
                  endpoint = rw (sym p) n;
                  user = u;
                  socket = i;
                  socket_known = ground arith;
                  of_family = refl;
                  on_port = p;
                  bound = refl;
                })
        ]
      ]
    ]

pub parse_fields-Lists :
    (family : AddressFamily) (port : ℕ) (l : Listener) (fs : List Text)
    → parse_fields family port fs ≡ LineResult.listens l
    → Lists family port l fs
unfolding parse_fields
parse_fields-Lists family port l [] h = absurd (ground arith)
parse_fields-Lists family port l (f ∷ fs) h = elim (Option-cases (row_of (f ∷ fs))) [
  | inl n ↦ absurd (ground arith)
  | inr (r, n) ↦ listener_of-Lists family port l r (f ∷ fs) n (ground arith) (ground arith)
]

row_of-sl : (a : Text) (rest : List Text) (r : Row) → row_of (a ∷ rest) ≡ some r → r.sl ≡ a
unfolding row_of
row_of-sl a [] r q = absurd (ground arith)
row_of-sl a (b ∷ []) r q = absurd (ground arith)
row_of-sl a (b ∷ c ∷ []) r q = absurd (ground arith)
row_of-sl a (b ∷ c ∷ d ∷ []) r q = absurd (ground arith)
row_of-sl a (b ∷ c ∷ d ∷ e ∷ []) r q = absurd (ground arith)
row_of-sl a (b ∷ c ∷ d ∷ e ∷ f ∷ []) r q = absurd (ground arith)
row_of-sl a (b ∷ c ∷ d ∷ e ∷ f ∷ g ∷ []) r q = absurd (ground arith)
row_of-sl a (b ∷ c ∷ d ∷ e ∷ f ∷ g ∷ h ∷ []) r q = absurd (ground arith)
row_of-sl a (b ∷ c ∷ d ∷ e ∷ f ∷ g ∷ h ∷ i ∷ []) r q = absurd (ground arith)
row_of-sl a (b ∷ c ∷ d ∷ e ∷ f ∷ g ∷ h ∷ i ∷ j ∷ more) r q = ground arith

well_formed-sl :
    (family : AddressFamily) (r : Row) → well_formed family r ≡ true → (r.sl == codes "sl") ≡ false
unfolding well_formed valid_proc_row_id before_colon
well_formed-sl family r h =
    let same = ==_iff r.sl (codes "sl") in
    elim (Bool-cases (r.sl == codes "sl")) [
      | inr e ↦ e
      | inl e ↦
          let none_before : valid_proc_row_id r.sl ≡ false = rw (same.0 e) refl in
          absurd (ground arith)
    ]

Lists-listener_of :
    (family : AddressFamily) (port : ℕ) (l : Listener) (fs : List Text) (c : Lists family port l fs)
    → listener_of family port c.row ≡ LineResult.listens l
unfolding listener_of
Lists-listener_of family port l fs c =
    let state = (==_iff c.row.state (codes "0A")).1 c.listening in
    let same_port = (==_iff port port).1 refl in
    let e = c.endpoint in
    let u = c.user in
    let i = c.socket in
    let k = c.socket_known in
    let f = c.of_family in let p = c.on_port in let b = c.bound in ground arith

pub Lists-parse_fields :
    (family : AddressFamily) (port : ℕ) (l : Listener) (fs : List Text)
    → Lists family port l fs
    → parse_fields family port fs ≡ LineResult.listens l
unfolding parse_fields
Lists-parse_fields family port l [] c = let e = c.is_row in absurd (unfold row_of in ground arith)
Lists-parse_fields family port l (a ∷ rest) c =
    let named = row_of-sl a rest c.row c.is_row in
    let other : (a == codes "sl") ≡ false =
      subst (λ x. (x == codes "sl") ≡ false) named (well_formed-sl family c.row c.formed) in
    rw (other, c.is_row, c.formed) (Lists-listener_of family port l (a ∷ rest) c)
