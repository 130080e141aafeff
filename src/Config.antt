-- ===== src/Config.antt =====
-- bt_parse.c and bt_parse.h, and `set_debug` of debug.c: the command line and the list of peers. The
-- parameters are what `getopt` returns, the content of the list, and `gethostbyname`. There is
-- memory for the peers. A `none` is a write behind an array.
pub mod Peers
pub mod Options
use Prim.Native.Nat.{bit_or}
use proj.Prelude.{
  ℕ, zero, suc, ◌+◌, ◌-◌, ◌%◌, ◌^◌, Bool, true, false, ◌&&◌, ◌||◌, Option, none, some, List, [],
  ◌∷◌, ltb, leb, ◌==◌, if◌then◌else◌, ◌>>=◌, length,
}
use proj.Prelude.Int.{ℤ, pos, negsuc}
use proj.Scan.{is_digit, skip_space, scan_word, scan_int, atoi}
use proj.Chunk.Listing.{int_pattern}
use proj.Wire.{Peer, bt_peer_info}
use proj.Spiffy.{htons, low_half}

-- `bt_config_t`, the names without their 0, a `short` as its bit pattern; and `debug`, the global of
-- debug.c. `output_file`, which nothing reads, the socket and the arguments are left out.
pub record Config : Type 0 where
  pub chunk_file : List ℕ
  pub has_chunk_file : List ℕ
  pub peer_list_file : List ℕ
  pub max_conn : ℤ
  pub identity : ℕ
  pub myport : ℕ
  pub peers : List Peer
  pub debug : ℕ

abbrev pub bt_filename_len : ℕ
bt_filename_len = 255

-- `nodes.map`.
unfoldable pub bt_init : Config
bt_init = record {
  chunk_file = [];
  has_chunk_file = [];
  peer_list_file = 110 ∷ 111 ∷ 100 ∷ 101 ∷ 115 ∷ 46 ∷ 109 ∷ 97 ∷ 112 ∷ [];
  max_conn = pos 0;
  identity = 0;
  myport = 0;
  peers = [];
  debug = 0;
}

-- `!strcmp`.
unfoldable pub same_text : List ℕ → List ℕ → Bool
same_text [] [] = true
same_text (x ∷ xs) (y ∷ ys) = x == y && same_text xs ys
same_text _ _ = false

-- `set_debug`: the new value of `debug`, or `none` for the result -1.
unfoldable pub set_debug : ℕ → List ℕ → Option ℕ
unfolding same_text
set_debug debug [] = none
set_debug debug (c ∷ cs) =
    if c == 63 || same_text (c ∷ cs) (108 ∷ 105 ∷ 115 ∷ 116 ∷ [])
    then none
    else if is_digit c
    then some (bit_or debug (int_pattern (atoi (c ∷ cs))))
    else some debug

-- The ends of the parsing: the status that the program exits with, an assertion that fails, or the
-- configuration.
pub data Outcome : Type 0 where
  exits : ℤ → Outcome
  aborts : Outcome
  parsed : Config → Outcome

-- What comes next, unless the program has ended.
abbrev pub and_then : Outcome → (Config → Option Outcome) → Option Outcome
and_then (exits n) next = some (exits n)
and_then aborts next = some aborts
and_then (parsed g) next = next g

-- A round of the loop over the options: `strcpy` has no bound.
unfoldable pub one_option : Config → ℕ → List ℕ → Option Outcome
unfolding set_debug
one_option g c optarg =
    let fits = ltb (length optarg) bt_filename_len in
    if c == 104
    then some (exits (pos 0))
    else if c == 100
    then elim (set_debug g.debug optarg) [
      | none ↦ some (exits (negsuc 0))
      | some debug ↦ some (parsed (record g { debug = debug }))
    ]
    else if c == 112
    then (if fits then some (parsed (record g { peer_list_file = optarg })) else none)
    else if c == 99
    then (if fits then some (parsed (record g { has_chunk_file = optarg })) else none)
    else if c == 102
    then (if fits then some (parsed (record g { chunk_file = optarg })) else none)
    else if c == 109
    then some (parsed (record g { max_conn = atoi optarg }))
    else if c == 105
    then some (parsed (record g { identity = low_half (atoi optarg) }))
    else some (exits (negsuc 0))

-- The loop; `options` are the results of `getopt` before the -1, with `optarg`.
unfoldable pub take_options : List (ℕ × List ℕ) → Config → Option Outcome
take_options [] g = some (parsed g)
take_options ((c, optarg) ∷ options) g =
    one_option g c optarg >>= λ o. and_then o (λ g1. take_options options g1)

-- `fgets` with room for `limit` bytes: a line with its end, and what is left of the file.
unfoldable pub fgets : ℕ → List ℕ → List ℕ × List ℕ
fgets zero cs = ([], cs)
fgets (suc limit) [] = ([], [])
fgets (suc limit) (c ∷ cs) =
    let (line, rest) = fgets limit cs in if c == 10 then (10 ∷ [], cs) else (c ∷ line, rest)

-- The local variables that `sscanf` writes.
pub record Fields : Type 0 where
  pub nodeid : ℤ
  pub hostname : List ℕ
  pub port : ℤ

-- The three directives of `sscanf(line, "%d %s %d", &nodeid, hostname, &port)`, from the last one on:
-- whether the result is not 0, and the variables.
abbrev pub scan_port : Fields → Option (ℤ × List ℕ) → Bool × Fields
scan_port v none = (true, v)
scan_port v (some (port, rest)) = (true, record v { port = port })

abbrev pub scan_hostname : Fields → Option (List ℕ × List ℕ) → Bool × Fields
scan_hostname v none = (true, v)
scan_hostname v (some (hostname, rest)) =
    scan_port (record v { hostname = hostname }) (scan_int rest)

-- The result is -1, not 0, if there is nothing but white space.
abbrev pub scan_nodeid : Fields → List ℕ → Option (ℤ × List ℕ) → Bool × Fields
scan_nodeid v line none = (leb (length (skip_space line)) 0, v)
scan_nodeid v line (some (nodeid, rest)) =
    scan_hostname (record v { nodeid = nodeid }) (scan_word (length rest) rest)

unfoldable pub scan_node : Fields → List ℕ → Bool × Fields
scan_node v line = scan_nodeid v line (scan_int line)

module _ (gethostbyname : List ℕ → Option ℕ) where
  -- A round of the loop over the lines: a comment, a new peer in front of the list, or an assertion
  -- that fails.
  unfoldable pub one_node : List ℕ → Fields → List Peer → Option (Fields × List Peer)
  one_node [] v peers = none
  one_node (c ∷ line) v peers =
      let read = scan_node v (c ∷ line) in
      let node = gethostbyname read.1.hostname >>= λ addr. some (
        read.1,
        record {
          id = low_half read.1.nodeid;
          sin_addr = addr;
          sin_port = htons (low_half read.1.port);
        }
            ∷ peers,
      ) in
      if c == 35 then some (v, peers) else if read.0 then node else none

  -- The loop; the fuel bounds the lines.
  unfoldable pub read_nodes : ℕ → List ℕ → Fields → List Peer → Option (List Peer)
  read_nodes zero file v peers = some peers
  read_nodes (suc fuel) [] v peers = some peers
  read_nodes (suc fuel) (c ∷ cs) v peers =
      let (line, rest) = fgets (bt_filename_len - 1) (c ∷ cs) in
      one_node line v peers >>= λ (v1, peers1). read_nodes fuel rest v1 peers1

  -- `bt_parse_peer_list`, from the content of the file: every line takes a byte. `none` is an assertion
  -- that fails.
  unfoldable pub bt_parse_peer_list : Fields → Option (List ℕ) → List Peer → Option (List Peer)
  bt_parse_peer_list v none peers = none
  bt_parse_peer_list v (some file) peers = read_nodes (length file) file v peers

  -- `bt_parse_command_line` from the list of peers on.
  unfoldable pub check_config : Config → Outcome
  check_config g =
      if g.identity == 0 then exits (negsuc 0) else elim (bt_peer_info g.peers g.identity) [
        | none ↦ exits (negsuc 0)
        | some p ↦
            if ltb 0 (length g.chunk_file) && ltb 0 (length g.has_chunk_file)
            then parsed (record g { myport = htons p.sin_port })
            else aborts
      ]

  -- With the result of reading the list.
  abbrev pub with_peers : Config → Option (List Peer) → Outcome
  with_peers g none = aborts
  with_peers g (some peers) = check_config (record g { peers = peers })

  -- `files` has the content of the files; `v` is what is on the stack.
  unfoldable pub bt_parse_command_line :
      (List ℕ → Option (List ℕ)) → Fields → List (ℕ × List ℕ) → Config → Option Outcome
  bt_parse_command_line files v options g = take_options options g >>= λ o.
      and_then o
        (λ g1. some (with_peers g1 (bt_parse_peer_list v (files g1.peer_list_file) g1.peers)))
