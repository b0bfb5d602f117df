-- ===== src/Keys/Finished.antt =====
-- The hash in a Finished message (sslGenerateFinishedHash) as the formula of SSL 3.
use robin_mesh_v.Prelude.{ℕ, Bool, Option, none, some, List, [], ◌∷◌, ◌++◌}
use robin_mesh_v.Keys.{pad1, pad2, sender_bytes}

-- What stands for the sender: nothing where there is none.
abbrev pub sent_by : Option Bool → List ℕ
sent_by none = []
sent_by (some s) = sender_bytes s

-- One half of the hash, for a hash with `n` bytes of padding.
abbrev pub finished_part : (List ℕ → List ℕ) → ℕ → List ℕ → List ℕ → Option Bool → List ℕ
finished_part hash n messages master sender =
    hash (master ++ (pad2 n ++ hash (messages ++ (sent_by sender ++ (master ++ pad1 n)))))

-- The pieces that the inner call gets.
abbrev pieces_of : ℕ → List ℕ → Option Bool → List (List ℕ)
pieces_of n master none = master ∷ pad1 n ∷ []
pieces_of n master (some s) = sender_bytes s ∷ master ∷ pad1 n ∷ []
