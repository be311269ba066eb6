-- ===== src/Mmap/Runs.antt =====
-- A file that is opened and cannot be mapped.
use clientplugin.Base.{ℕ, Option, none, some, [], Text, codes}
use clientplugin.Mmap.{SystemCalls, map_memory}
use clientplugin.Mmap.Descriptors.{open_fds, Leaves, map_memory-Leaves}

abbrev opens : SystemCalls → Text → Option ℕ
opens calls fname = some 3

abbrev file_length : SystemCalls → ℕ → ℕ
file_length calls fd = 0

abbrev maps : SystemCalls → ℕ → ℕ → Option ℕ
maps calls length fd = none

abbrev fname : Text
fname = codes "server.so"

map_memory-Leaves_example :
    Leaves opens file_length maps
      (map_memory opens file_length maps fname []).0
      (open_fds opens file_length maps [])
      (open_fds opens file_length maps (map_memory opens file_length maps fname []).1)
map_memory-Leaves_example = map_memory-Leaves opens file_length maps fname []
