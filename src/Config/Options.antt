-- ===== src/Config/Options.antt =====
-- The command line: what the program starts with, or how it ends.
use proj.Prelude.{
  ℕ, suc, ◌<◌, ◌≡◌, ◌≢◌, refl, sym, subst, inl, inr, Bool, true, false, ◌&&◌, Option, none, some,
  List, [], ◌∷◌, arith, length, get_elem?, ltb, ◌==◌, ◌>>=◌, if◌then◌else◌, Bool-cases,
  Option-cases, lt→ltb,
}
use proj.Prelude.Int.{ℤ, pos, negsuc}
use proj.Scan.{atoi}
use proj.Wire.{Peer, bt_peer_info}
use proj.Spiffy.{htons, low_half}
use proj.Config.{
  Config, bt_init, set_debug, Outcome, exits, aborts, parsed, and_then, with_peers, one_option,
  take_options, Fields, bt_parse_peer_list, check_config, bt_parse_command_line,
}

-- The names fit into their arrays.
pub record Names (g : Config) : Type 0 where
  pub chunk_file : length g.chunk_file < 255
  pub has_chunk_file : length g.has_chunk_file < 255
  pub peer_list_file : length g.peer_list_file < 255

bt_init-Names : Names bt_init
unfolding bt_init
bt_init-Names = omega arith

-- What the rest of the program relies on.
pub record Usable (g : Config) : Type 0 where
  pub names : Names g
  pub identity : g.identity ≢ 0
  pub known :
      (p : Peer) × (bt_peer_info g.peers g.identity ≡ some p) × (g.myport ≡ htons p.sin_port)
  pub chunk_file : 0 < length g.chunk_file
  pub has_chunk_file : 0 < length g.has_chunk_file

-- An end of the parsing, with a property of the configuration.
pub data Ends (Ok : Config → Type 0) : Outcome → Type 0 where
  stopped : (n : ℤ) → Ends Ok (exits n)
  failed : Ends Ok aborts
  ready : (g : Config) → Ok g → Ends Ok (parsed g)

-- Without a write behind an array.
abbrev Runs : (Config → Type 0) → Option Outcome → Type 0
Runs Ok result = (o : Outcome) × (result ≡ some o) × Ends Ok o

stops : (Ok : Config → Type 0) (n : ℤ) → Runs Ok (some (exits n))
stops Ok n = (exits n, refl, stopped n)

goes_on : (Ok : Config → Type 0) (g : Config) → Ok g → Runs Ok (some (parsed g))
goes_on Ok g ok = (parsed g, refl, ready g ok)

branch :
    (Ok : Config → Type 0) (b : Bool) (x y : Option Outcome)
    → Runs Ok x
    → Runs Ok y
    → Runs Ok (if b then x else y)
branch Ok true x y a c = a
branch Ok false x y a c = c

-- One part of the parsing after the other.
Runs-and_then :
    (Ok Ok' : Config → Type 0) (next : Config → Option Outcome) (result : Option Outcome)
    → Runs Ok result
    → ((g : Config) → Ok g → Runs Ok' (next g))
    → Runs Ok' (result >>= λ o. and_then o next)
Runs-and_then Ok Ok' next result (o, runs, ends) more =
    subst (λ r. Runs Ok' (r >>= λ x. and_then x next)) (sym runs) (onward o ends)
  where
    onward : (o : Outcome) → Ends Ok o → Runs Ok' (and_then o next)
    onward _ (stopped n) = stops Ok' n
    onward _ failed = (aborts, refl, failed)
    onward _ (ready g v) = more g v

one_option-Runs :
    (g : Config) (c : ℕ) (optarg : List ℕ)
    → Names g
    → length optarg < 255
    → Runs Names (one_option g c optarg)
unfolding one_option
one_option-Runs g c optarg v small =
    let fits : ltb (length optarg) 255 ≡ true = lt→ltb _ _ small in
    rw fits (
      branch Names (c == 104) _ _ (stops Names (pos 0)) (
        branch Names (c == 100) _ _ (debugging g optarg v) (
          branch Names (c == 112) _ _
            (goes_on Names (record g { peer_list_file = optarg })
              (record {
                chunk_file = v.chunk_file;
                has_chunk_file = v.has_chunk_file;
                peer_list_file = small;
              }))
            (branch Names (c == 99) _ _
              (goes_on Names (record g { has_chunk_file = optarg })
                (record {
                  chunk_file = v.chunk_file;
                  has_chunk_file = small;
                  peer_list_file = v.peer_list_file;
                }))
              (branch Names (c == 102) _ _
                (goes_on Names (record g { chunk_file = optarg })
                  (record {
                    chunk_file = small;
                    has_chunk_file = v.has_chunk_file;
                    peer_list_file = v.peer_list_file;
                  }))
                (branch Names (c == 109) _ _
                  (goes_on Names (record g { max_conn = atoi optarg })
                    (record {
                      chunk_file = v.chunk_file;
                      has_chunk_file = v.has_chunk_file;
                      peer_list_file = v.peer_list_file;
                    }))
                  (branch Names (c == 105) _ _
                    (goes_on Names (record g { identity = low_half (atoi optarg) })
                      (record {
                        chunk_file = v.chunk_file;
                        has_chunk_file = v.has_chunk_file;
                        peer_list_file = v.peer_list_file;
                      }))
                    (stops Names (negsuc 0)))))))))
  where
    debugging :
        (g : Config) (optarg : List ℕ)
        → Names g
        → Runs Names (elim (set_debug g.debug optarg) [
          | none ↦ some (exits (negsuc 0))
          | some debug ↦ some (parsed (record g { debug = debug }))
        ])
    debugging g optarg v = elim (Option-cases (set_debug g.debug optarg)) [
      | inl bad ↦ rw bad (stops Names (negsuc 0))
      | inr (d, good) ↦ rw good (
          goes_on Names (record g { debug = d })
            (record {
              chunk_file = v.chunk_file;
              has_chunk_file = v.has_chunk_file;
              peer_list_file = v.peer_list_file;
            }))
    ]

-- No argument of an option is longer than a name may be.
abbrev pub ShortArgs : List (ℕ × List ℕ) → Type 0
ShortArgs options = (k : ℕ) (x : ℕ × List ℕ) → get_elem? options k ≡ some x → length x.1 < 255

take_options-Runs :
    (options : List (ℕ × List ℕ)) (g : Config)
    → ShortArgs options
    → Names g
    → Runs Names (take_options options g)
unfolding take_options
take_options-Runs [] g short v = goes_on Names g v
take_options-Runs ((c, optarg) ∷ options) g short v =
    Runs-and_then Names Names (λ g1. take_options options g1) (one_option g c optarg)
      (one_option-Runs g c optarg v (short 0 (c, optarg) refl))
      (λ g1 w. take_options-Runs options g1 (λ k. short (suc k)) w)

check_config-Ends :
    (hosts : List ℕ → Option ℕ) (g : Config) → Names g → Ends Usable (check_config hosts g)
unfolding check_config
check_config-Ends hosts g v = elim (Bool-cases (g.identity == 0)) [
  | inl zero' ↦ rw zero' (stopped (negsuc 0))
  | inr nonzero ↦ elim (Option-cases (bt_peer_info g.peers g.identity)) [
    | inl unknown ↦ rw (nonzero, unknown) (stopped (negsuc 0))
    | inr (p, known) ↦
        elim (Bool-cases (ltb 0 (length g.chunk_file) && ltb 0 (length g.has_chunk_file))) [
          | inr missing ↦ rw (nonzero, known, missing) failed
          | inl named ↦
              rw (nonzero, known, named)
                (ready (record g { myport = htons p.sin_port })
                  (record {
                    names = record {
                      chunk_file = v.chunk_file;
                      has_chunk_file = v.has_chunk_file;
                      peer_list_file = v.peer_list_file;
                    };
                    identity = ground arith;
                    known = (p, known, refl);
                    chunk_file = ground arith;
                    has_chunk_file = ground arith;
                  }))
        ]
  ]
]

with_peers-Ends :
    (hosts : List ℕ → Option ℕ) (g : Config) (peers : Option (List Peer))
    → Names g
    → Ends Usable (with_peers hosts g peers)
with_peers-Ends hosts g none v = failed
with_peers-Ends hosts g (some peers) v =
    check_config-Ends hosts (record g { peers = peers })
      (record {
        chunk_file = v.chunk_file;
        has_chunk_file = v.has_chunk_file;
        peer_list_file = v.peer_list_file;
      })

-- No argument is longer than a name may be. Then the command line is parsed without a write behind an
-- array, and it ends in one of three ways: the program exits, an assertion fails, or the
-- configuration can be used: the names fit, the identity is not 0, the peer with that identity
-- is in the list and its port is the own one, and the names of the two lists of chunks are not empty.
pub bt_parse_command_line-Usable :
    (hosts : List ℕ → Option ℕ) (files : List ℕ → Option (List ℕ)) (v : Fields)
    (options : List (ℕ × List ℕ))
    → ShortArgs options
    → (o : Outcome) × (bt_parse_command_line hosts files v options bt_init ≡ some o) × Ends Usable o
unfolding bt_parse_command_line
bt_parse_command_line-Usable hosts files v options short =
    Runs-and_then Names Usable
      (λ g. some (with_peers hosts g (bt_parse_peer_list hosts v (files g.peer_list_file) g.peers)))
      (take_options options bt_init) (take_options-Runs options bt_init short bt_init-Names)
      (λ g w. (
        with_peers hosts g (bt_parse_peer_list hosts v (files g.peer_list_file) g.peers),
        refl,
        with_peers-Ends hosts g (bt_parse_peer_list hosts v (files g.peer_list_file) g.peers) w,
      ))
