-- ===== src/PartyChat/Runs.antt =====
-- The name in a buffer of eight wide characters, of which five are given.
use clientplugin.Base.{ℕ, ◌/◌, ◌≤◌, ◌≡◌, ◌↔◌, List, [], ◌∷◌, ok, arith}
use clientplugin.PartyChat.{get_player_name_for_steam_id}
use clientplugin.PartyChat.Terminated.{IsTerminated, party_name-IsTerminated}

abbrev name : List ℕ
name = 1 ∷ 2 ∷ 3 ∷ 4 ∷ 5 ∷ 6 ∷ 7 ∷ 8 ∷ []

party_name-IsTerminated_example :
    (after : List ℕ) × (get_player_name_for_steam_id name 20 ≡ ok after)
    × (IsTerminated (20 / 4) after ↔ 20 ≤ 20)
party_name-IsTerminated_example = party_name-IsTerminated name 20 (omega arith)
