-- ===== src/Config/Peers.antt =====
-- The list of peers is read as it was written.
use proj.Prelude.{
  ℕ, zero, suc, ◌+◌, ◌-◌, ◌%◌, ◌^◌, ◌≤◌, ◌<◌, ◌≡◌, ◌≢◌, refl, ap, sym, subst, ◌∙◌, true, false,
  Option, some, List, [], ◌∷◌, ◌++◌, arith, length, length-append, ◌==◌,
}
use proj.Prelude.Int.{pos}
use proj.Scan.{scan_int, scan_word, print_nat}
use proj.Scan.Words.{IsWord, no_byte, one_byte, at_space, scan_word-append, scan_word-space}
use proj.Scan.Numbers.{
  Digit, digit, at_other, scan_int-print_nat, scan_int-space, print_nat-append, print_nat-IsWord,
  print_nat-Digit,
}
use proj.Wire.{Peer}
use proj.Spiffy.{htons}
use proj.Config.{
  Fields, fgets, scan_port, scan_hostname, scan_nodeid, scan_node, one_node, read_nodes,
  bt_parse_peer_list,
}

fgets-byte :
    (limit c : ℕ) (cs : List ℕ)
    → (c == 10) ≡ false
    → fgets (suc limit) (c ∷ cs) ≡ (c ∷ (fgets limit cs).0, (fgets limit cs).1)
unfolding fgets
fgets-byte limit c cs h = rw h refl

fgets-word :
    (limit : ℕ) (w cs line rest : List ℕ)
    → IsWord w
    → fgets limit cs ≡ (line, rest)
    → fgets (length w + limit) (w ++ cs) ≡ (w ++ line, rest)
fgets-word limit _ cs line rest no_byte h =
    let e : 0 + limit ≡ limit = omega arith in ap (λ n. fgets n cs) e ∙ h
fgets-word limit _ cs line rest (one_byte c w s word) h =
    let e : suc (length w) + limit ≡ suc (length w + limit) = omega arith in
    ap (λ n. fgets n (c ∷ (w ++ cs))) e
    ∙ (fgets-byte (length w + limit) c (w ++ cs) (ground arith)
        ∙ ap (λ (r : List ℕ × List ℕ). (c ∷ r.0, r.1)) (fgets-word limit w cs line rest word h))

fgets-end : (limit : ℕ) (cs : List ℕ) → fgets (suc limit) (10 ∷ cs) ≡ (10 ∷ [], cs)
unfolding fgets
fgets-end limit cs = refl

-- An entry of the list, and its line.
pub record Node : Type 0 where
  pub id : ℕ
  pub host : List ℕ
  pub port : ℕ

abbrev pub node_line : Node → List ℕ → List ℕ
node_line n rest =
    print_nat n.id [] ++ (32 ∷ (n.host ++ (32 ∷ (print_nat n.port [] ++ (10 ∷ rest)))))

fgets-node_line :
    (n : Node) (rest : List ℕ)
    → IsWord n.host
    → length (node_line n []) ≤ 254
    → fgets 254 (node_line n rest) ≡ (node_line n [], rest)
fgets-node_line n rest word short =
    let a = print_nat n.id [] in
    let p = print_nat n.port [] in
    let k = 254 - length (node_line n []) in
    let len1 = length-append a (32 ∷ (n.host ++ (32 ∷ (p ++ (10 ∷ []))))) in
    let len2 = length-append n.host (32 ∷ (p ++ (10 ∷ []))) in
    let len3 = length-append p (10 ∷ []) in
    let limit : 254 ≡ length a + suc (length n.host + suc (length p + suc k)) =
      omega (arith, len1, len2, len3) in
    let third =
      fgets-word (suc k) p (10 ∷ rest) (10 ∷ []) rest (print_nat-IsWord n.port)
        (fgets-end k rest) in
    let space2 =
      fgets-byte (length p + suc k) 32 (p ++ (10 ∷ rest)) refl
      ∙ ap (λ (r : List ℕ × List ℕ). (32 ∷ r.0, r.1)) third in
    let second =
      fgets-word (suc (length p + suc k)) n.host (32 ∷ (p ++ (10 ∷ rest))) (32 ∷ (p ++ (10 ∷ [])))
        rest word space2 in
    let space1 =
      fgets-byte (length n.host + suc (length p + suc k)) 32 (n.host ++ (32 ∷ (p ++ (10 ∷ rest))))
        refl
      ∙ ap (λ (r : List ℕ × List ℕ). (32 ∷ r.0, r.1)) second in
    ap (λ m. fgets m (node_line n rest)) limit
    ∙ fgets-word (suc (length n.host + suc (length p + suc k))) a
        (32 ∷ (n.host ++ (32 ∷ (p ++ (10 ∷ rest))))) (32 ∷ (n.host ++ (32 ∷ (p ++ (10 ∷ []))))) rest
        (print_nat-IsWord n.id) space1

-- The fields of a line.
abbrev fields : Node → Fields
fields n = record { nodeid = pos n.id; hostname = n.host; port = pos n.port }

scan_node-node_line :
    (v : Fields) (n : Node)
    → IsWord n.host
    → n.host ≢ []
    → scan_node v (node_line n []) ≡ (true, fields n)
unfolding scan_node
scan_node-node_line v n word some' =
    let line = node_line n [] in
    let rest1 = 32 ∷ (n.host ++ (32 ∷ (print_nat n.port [] ++ (10 ∷ [])))) in
    let rest2 = 32 ∷ (print_nat n.port [] ++ (10 ∷ [])) in
    let v1 : Fields = record v { nodeid = pos n.id } in
    let first : scan_int line ≡ some (pos n.id, rest1) =
      ap scan_int (print_nat-append n.id rest1)
      ∙ scan_int-print_nat n.id rest1 (at_other 32 _ refl) in
    let second : scan_word (length rest1) rest1 ≡ some (n.host, rest2) =
      scan_word-space (length rest1) 32 (n.host ++ rest2) refl
      ∙ scan_word-append (length rest1) n.host rest2 word some' (at_space 32 _ refl)
          (omega (arith, length-append n.host rest2)) in
    let third : scan_int rest2 ≡ some (pos n.port, 10 ∷ []) =
      scan_int-space (print_nat n.port [] ++ (10 ∷ []))
      ∙ (ap scan_int (print_nat-append n.port (10 ∷ []))
          ∙ scan_int-print_nat n.port (10 ∷ []) (at_other 10 [] refl)) in
    ap (scan_nodeid v line) first
    ∙ (ap (scan_hostname v1) second ∙ ap (scan_port (record v1 { hostname = n.host })) third)

-- The peer of an entry.
abbrev pub peer_of : ℕ → Node → Peer
peer_of addr n = record { id = n.id; sin_addr = addr; sin_port = htons n.port }

one_node-Digit :
    (hosts : List ℕ → Option ℕ) (line : List ℕ) (v : Fields) (n : Node) (addr : ℕ)
    (peers : List Peer)
    → Digit line
    → scan_node v line ≡ (true, fields n)
    → hosts n.host ≡ some addr
    → n.id < 2 ^ 16
    → n.port < 2 ^ 16
    → one_node hosts line v peers ≡ some (fields n, peer_of addr n ∷ peers)
unfolding one_node
one_node-Digit hosts _ v n addr peers (digit c cs d) reads known small_id small_port =
    let other : (c == 35) ≡ false = ground arith in
    let id : n.id % 2 ^ 16 ≡ n.id = omega arith in
    let port : n.port % 2 ^ 16 ≡ n.port = omega arith in rw (other, reads, known, id, port) refl

read_nodes-Digit :
    (hosts : List ℕ → Option ℕ) (fuel : ℕ) (file line rest : List ℕ) (v v1 : Fields)
    (peers peers1 : List Peer)
    → Digit file
    → fgets 254 file ≡ (line, rest)
    → one_node hosts line v peers ≡ some (v1, peers1)
    → read_nodes hosts (suc fuel) file v peers ≡ read_nodes hosts fuel rest v1 peers1
unfolding read_nodes
read_nodes-Digit hosts fuel _ line rest v v1 peers peers1 (digit c cs d) cut node =
    rw (cut, node) refl

-- Entries and their peers: ids and ports fit 16 bits, names are words whose addresses are known, and
-- a line fits into the buffer.
pub data Entries (hosts : List ℕ → Option ℕ) : List Node → List Peer → Type 0 where
  no_entry : Entries hosts [] []
  one_entry :
      (n : Node) (addr : ℕ) (ns : List Node) (ps : List Peer)
      → IsWord n.host
      → n.host ≢ []
      → n.id < 2 ^ 16
      → n.port < 2 ^ 16
      → length (node_line n []) ≤ 254
      → hosts n.host ≡ some addr
      → Entries hosts ns ps
      → Entries hosts (n ∷ ns) (peer_of addr n ∷ ps)

-- The file with those lines.
unfoldable pub print_nodes : List Node → List ℕ
print_nodes [] = []
print_nodes (n ∷ ns) = node_line n (print_nodes ns)

-- The peers in front of a list, the last one first.
unfoldable pub stacked : List Peer → List Peer → List Peer
stacked [] peers = peers
stacked (p ∷ ps) peers = stacked ps (p ∷ peers)

read_nodes-print_nodes :
    (hosts : List ℕ → Option ℕ) (fuel : ℕ) (ns : List Node) (ps peers : List Peer) (v : Fields)
    → Entries hosts ns ps
    → length ns ≤ fuel
    → read_nodes hosts fuel (print_nodes ns) v peers ≡ some (stacked ps peers)
unfolding print_nodes stacked
read_nodes-print_nodes hosts fuel _ _ peers v no_entry enough = at_end fuel
  where
    at_end : (fuel : ℕ) → read_nodes hosts fuel [] v peers ≡ some peers
    at_end zero = unfold read_nodes in refl
    at_end (suc fuel) = unfold read_nodes in refl
read_nodes-print_nodes hosts zero _ _ peers v (one_entry n addr ns ps w s i p l h more) enough =
    absurd (omega arith)
read_nodes-print_nodes hosts (suc fuel) _ _ peers v (one_entry n addr ns ps w s i p l h more)
      enough =
    let rest = print_nodes ns in
    let starts = λ (r : List ℕ).
      subst Digit
        (sym (print_nat-append n.id (32 ∷ (n.host ++ (32 ∷ (print_nat n.port [] ++ (10 ∷ r)))))))
        (print_nat-Digit n.id (32 ∷ (n.host ++ (32 ∷ (print_nat n.port [] ++ (10 ∷ r)))))) in
    read_nodes-Digit hosts fuel (node_line n rest) (node_line n []) rest v (fields n) peers
      (peer_of addr n ∷ peers) (starts rest) (fgets-node_line n rest w l)
      (one_node-Digit hosts (node_line n []) v n addr peers (starts [])
        (scan_node-node_line v n w s) h i p)
    ∙ read_nodes-print_nodes hosts fuel ns ps (peer_of addr n ∷ peers) (fields n) more (omega arith)

print_nodes-le : (ns : List Node) → length ns ≤ length (print_nodes ns)
unfolding print_nodes
print_nodes-le [] = omega arith
print_nodes-le (n ∷ ns) =
    let r3 = 10 ∷ print_nodes ns in
    let r2 = 32 ∷ (print_nat n.port [] ++ r3) in
    let r1 = 32 ∷ (n.host ++ r2) in
    omega (
      arith,
      print_nodes-le ns,
      length-append (print_nat n.port []) r3,
      length-append n.host r2,
      length-append (print_nat n.id []) r1,
    )

-- A file lists entries `id host port`, one in a line of at most 254 bytes: the host is a word whose
-- address `gethostbyname` knows, and id and port fit 16 bits. Then no assertion fails, and the
-- peers that are added to the list are those of the entries, with these ids, addresses and ports,
-- the last one first.
pub bt_parse_peer_list-print_nodes :
    (hosts : List ℕ → Option ℕ) (ns : List Node) (ps peers : List Peer) (v : Fields)
    → Entries hosts ns ps
    → bt_parse_peer_list hosts v (some (print_nodes ns)) peers ≡ some (stacked ps peers)
unfolding bt_parse_peer_list
bt_parse_peer_list-print_nodes hosts ns ps peers v es =
    read_nodes-print_nodes hosts (length (print_nodes ns)) ns ps peers v es (print_nodes-le ns)
