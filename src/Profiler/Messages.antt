-- ===== src/Profiler/Messages.antt =====
-- The texts of src/modules/profiler.cpp: the macro TELEMETRY_FORMAT and the functions that use it, and the copy of
-- a text that is handed out. What `vsnprintf` is to write, and the memory that `new` returns, are given.
use clientplugin.Base.{
  ℕ, zero, suc, ◌+◌, ◌<◌, ◌≡◌, ◌≢◌, refl, ap, Option, none, some, All, List, [], ◌∷◌, ◌++◌, length,
  get_elem?, Text, Result, ok, err, undefined, ◌>>=◌, arith, ◌==◌, if◌then◌else◌,
}
use clientplugin.Profiler.{TracyCall, LevelState, Thread, enter}

-- `vsnprintf` on a buffer of zeros: at most size - 1 characters, and the rest of the buffer stays zero.
pub vsnprintf : (size : ℕ) (room : ℕ) → Text → List ℕ
vsnprintf size zero text = []
vsnprintf zero (suc room) text = 0 ∷ vsnprintf zero room text
vsnprintf (suc size) (suc room) [] = 0 ∷ vsnprintf size room []
vsnprintf (suc zero) (suc room) (c ∷ text) = 0 ∷ vsnprintf zero room text
vsnprintf (suc (suc size)) (suc room) (c ∷ text) = c ∷ vsnprintf (suc size) room text

-- `TELEMETRY_FORMAT`: `name` has 256 characters, and 255 are its size to `vsnprintf`.
pub telemetry_format : Text → List ℕ
unfolding vsnprintf
telemetry_format text = vsnprintf 255 256 text

-- The text that a pointer to characters stands for.
pub c_string : List ℕ → Text
c_string [] = []
c_string (c ∷ cs) = let rest = c_string cs in if c == 0 then [] else c ∷ rest

-- `tmCoreMessage_replace`: the characters that Tracy is given, and their number.
pub message : Text → List ℕ × ℕ
unfolding telemetry_format
message text = (telemetry_format text, 256)

-- `tmCoreEnter_replace` from its format on.
pub enter_format : (List TracyCall → ℕ) → LevelState → ℕ → Text → Text → Thread → Thread
unfolding telemetry_format c_string
enter_format emit state line location text t =
    enter emit state line location (c_string (telemetry_format text)) t

-- `strnlen` of a text.
pub strnlen : Text → ℕ → ℕ
strnlen [] n = 0
strnlen (c ∷ s) zero = 0
strnlen (c ∷ s) (suc n) = suc (strnlen s n)

-- `strncpy`, which fills with zeros; to write behind the array is undefined.
pub strncpy : List ℕ → Text → ℕ → Result (List ℕ)
strncpy dest s zero = ok dest
strncpy [] s (suc n) = err undefined
strncpy (d ∷ dest) [] (suc n) = do rest ← strncpy dest [] n; ok (0 ∷ rest)
strncpy (d ∷ dest) (c ∷ s) (suc n) = do rest ← strncpy dest s n; ok (c ∷ rest)

-- `tmCoreDynamicString_replace`, with what `new char[]` returns for a number of characters.
unfoldable pub dynamic_string : (ℕ → List ℕ) → Option Text → Result (List ℕ)
unfolding strnlen strncpy
dynamic_string fresh none = ok (0 ∷ [])
dynamic_string fresh (some s) = let len = strnlen s 127 in strncpy (fresh (len + 1)) s len

abbrev pub take {ℓ} : {A : Type ℓ} → ℕ → List A → List A
take zero xs = []
take (suc n) [] = []
take (suc n) (x ∷ xs) = x ∷ take n xs

-- No character is zero.
abbrev pub Letters : Text → Type 0
Letters = All (λ (c : ℕ). c ≢ 0)

length-vsnprintf : (size room : ℕ) (text : Text) → length (vsnprintf size room text) ≡ room
unfolding vsnprintf
length-vsnprintf size zero text = refl
length-vsnprintf zero (suc room) text = ap suc (length-vsnprintf zero room text)
length-vsnprintf (suc size) (suc room) [] = ap suc (length-vsnprintf size room [])
length-vsnprintf (suc zero) (suc room) (c ∷ text) = ap suc (length-vsnprintf zero room text)
length-vsnprintf (suc (suc size)) (suc room) (c ∷ text) =
    ap suc (length-vsnprintf (suc size) room text)

c_string-vsnprintf :
    (size room : ℕ) (text : Text)
    → Letters text
    → size < room
    → c_string (vsnprintf (suc size) room text) ≡ take size text
unfolding vsnprintf c_string
c_string-vsnprintf size zero text l h = absurd (omega arith)
c_string-vsnprintf zero (suc room) [] l h = refl
c_string-vsnprintf zero (suc room) (c ∷ text) l h = refl
c_string-vsnprintf (suc size) (suc room) [] l h = refl
c_string-vsnprintf (suc size) (suc room) (c ∷ text) l h =
    ground (arith, c_string-vsnprintf size room text l.1 (omega arith), l.0)

-- Whatever the format makes of letters, the call is told as one with the first 254 of them, in a buffer of 256
-- characters of which all are handed on in a message.
pub telemetry_format_lem :
    (emit : List TracyCall → ℕ) (state : LevelState) (line : ℕ) (location text : Text) (t : Thread)
    → Letters text
    → (enter_format emit state line location text t
        ≡ enter emit state line location (take 254 text) t)
      × (length (message text).0 ≡ (message text).1)
unfolding enter_format message telemetry_format
telemetry_format_lem emit state line location text t l = (
  ap (λ (name : Text). enter emit state line location name t)
      (c_string-vsnprintf 254 256 text l (omega arith)),
  length-vsnprintf 255 256 text,
)

strncpy_lem :
    (s : Text) (n : ℕ) (dest : List ℕ)
    → length dest ≡ suc (strnlen s n)
    → (last : ℕ) × (get_elem? dest (strnlen s n) ≡ some last)
      × (strncpy dest s (strnlen s n) ≡ ok (take n s ++ (last ∷ [])))
unfolding strnlen strncpy
strncpy_lem s n [] h = absurd (omega arith)
strncpy_lem [] zero (d ∷ []) h = (d, refl, refl)
strncpy_lem [] (suc n) (d ∷ []) h = (d, refl, refl)
strncpy_lem [] n (d ∷ e ∷ dest) h = absurd (omega arith)
strncpy_lem (c ∷ s) zero (d ∷ []) h = (d, refl, refl)
strncpy_lem (c ∷ s) zero (d ∷ e ∷ dest) h = absurd (omega arith)
strncpy_lem (c ∷ s) (suc n) (d ∷ dest) h =
    let (last, at, copied) = strncpy_lem s n dest (omega arith) in
    (last, at, rw (copied, strncpy) refl)

-- If `new` returns as many characters as it is asked for, then the copy of a text holds its first 127 characters and
-- behind them what the last place in memory held before: nothing ends the copy.
pub dynamic_string_lem :
    (fresh : ℕ → List ℕ) (s : Text)
    → ((n : ℕ) → length (fresh n) ≡ n)
    → (last : ℕ) × (get_elem? (fresh (strnlen s 127 + 1)) (strnlen s 127) ≡ some last)
      × (dynamic_string fresh (some s) ≡ ok (take 127 s ++ (last ∷ [])))
unfolding dynamic_string
dynamic_string_lem fresh s sized =
    strncpy_lem s 127 (fresh (strnlen s 127 + 1)) (omega (arith, sized (strnlen s 127 + 1)))
