-- ===== src/Tests/Startup.antt =====
-- A command line, and a list of two peers.
use proj.Prelude.{
  ℕ, zero, suc, ◌≡◌, refl, Option, some, List, [], ◌∷◌, arith, length, some-eq, ◌<◌, ◌≤◌,
}
use proj.Prelude.Int.{pos}
use proj.Scan.{print_nat, digits}
use proj.Scan.Words.{no_byte, one_byte}
use proj.Config.{Fields, Outcome, bt_init, bt_parse_peer_list, bt_parse_command_line}
use proj.Config.Peers.{
  Node, node_line, peer_of, Entries, no_entry, one_entry, print_nodes, stacked,
  bt_parse_peer_list-print_nodes,
}
use proj.Config.Options.{Ends, Usable, ShortArgs, bt_parse_command_line-Usable}

abbrev hosts : List ℕ → Option ℕ
hosts name = some 16777343

abbrev stack : Fields
stack = record { nodeid = pos 7; hostname = []; port = pos 0 }

-- `1 a 4001` and `2 b 4002`.
abbrev first : Node
first = record { id = 1; host = 97 ∷ []; port = 4001 }

abbrev second : Node
second = record { id = 2; host = 98 ∷ []; port = 4002 }

first-short : length (node_line first []) ≤ 254
unfolding print_nat digits
first-short = omega arith

second-short : length (node_line second []) ≤ 254
unfolding print_nat digits
second-short = omega arith

nodes-Entries :
    Entries hosts (first ∷ second ∷ []) (peer_of 16777343 first ∷ peer_of 16777343 second ∷ [])
nodes-Entries =
    one_entry first 16777343 _ _ (one_byte 97 [] refl no_byte) (λ h. absurd (cc)) (omega arith)
      (omega arith) first-short refl
      (one_entry second 16777343 _ _ (one_byte 98 [] refl no_byte) (λ h. absurd (cc)) (omega arith)
        (omega arith) second-short refl no_entry)

bt_parse_peer_list-print_nodes_example :
    bt_parse_peer_list hosts stack (some (print_nodes (first ∷ second ∷ []))) []
    ≡ some (stacked (peer_of 16777343 first ∷ peer_of 16777343 second ∷ []) [])
bt_parse_peer_list-print_nodes_example =
    bt_parse_peer_list-print_nodes hosts (first ∷ second ∷ []) _ [] stack nodes-Entries

-- `-p p -c c -f f -m 4 -i 1`.
abbrev options : List (ℕ × List ℕ)
options = (112, 112 ∷ []) ∷ (99, 99 ∷ []) ∷ (102, 102 ∷ []) ∷ (109, 52 ∷ []) ∷ (105, 49 ∷ []) ∷ []

one_byte_long :
    (a b : ℕ) (x : ℕ × List ℕ)
    → ◌≡◌ {A = Option (ℕ × List ℕ)} (some (a, b ∷ [])) (some x)
    → length x.1 < 255
one_byte_long a b x h = rw (← some-eq (a, b ∷ []) x h) (omega arith)

options-ShortArgs : ShortArgs options
options-ShortArgs zero x h = one_byte_long 112 112 x h
options-ShortArgs (suc zero) x h = one_byte_long 99 99 x h
options-ShortArgs (suc (suc zero)) x h = one_byte_long 102 102 x h
options-ShortArgs (suc (suc (suc zero))) x h = one_byte_long 109 52 x h
options-ShortArgs (suc (suc (suc (suc zero)))) x h = one_byte_long 105 49 x h
options-ShortArgs (suc (suc (suc (suc (suc k))))) x h = absurd (cc)

bt_parse_command_line-Usable_example :
    (o : Outcome) × (bt_parse_command_line hosts
        (λ name. some (print_nodes (first ∷ second ∷ [])))
        stack
        options
        bt_init
      ≡ some o)
    × Ends Usable o
bt_parse_command_line-Usable_example =
    bt_parse_command_line-Usable hosts (λ name. some (print_nodes (first ∷ second ∷ []))) stack
      options options-ShortArgs
