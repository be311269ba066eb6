-- ===== src/PartyChat.antt =====
-- src/modules/partychat.cpp: the name that every player of the party is given. A wide character has four
-- bytes, and the caller's buffer is the list of its characters.
use clientplugin.Base.{
  ℕ, zero, suc, ◌/◌, List, [], ◌∷◌, Text, codes, Result, ok, err, undefined, ◌>>=◌,
}
pub mod Terminated
mod Runs

-- `wcsncpy` of the C library: it copies at most so many characters, and fills with null characters. To write
-- behind the buffer is undefined.
pub wcsncpy : ℕ → Text → List ℕ → Result (List ℕ)
wcsncpy zero src dest = ok dest
wcsncpy (suc n) src [] = err undefined
wcsncpy (suc n) [] (d ∷ dest) = do rest ← wcsncpy n [] dest; ok (0 ∷ rest)
wcsncpy (suc n) (c ∷ src) (d ∷ dest) = do rest ← wcsncpy n src dest; ok (c ∷ rest)

abbrev pub test_name : Text
test_name = codes "TEST"

-- `len` is the length of the buffer in bytes.
pub get_player_name_for_steam_id : List ℕ → ℕ → Result (List ℕ)
unfolding wcsncpy
get_player_name_for_steam_id name len = wcsncpy (len / 4) test_name name
