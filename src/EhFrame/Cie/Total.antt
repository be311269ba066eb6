-- ===== src/EhFrame/Cie/Total.antt =====
-- Termination of `handle_cie`.
use clientplugin.Base.{
  ℕ, ◌<◌, Bool, true, false, Error, Result, ◌>>=◌, ◌>>◌, require, Option, none, some, List, [], ◌∷◌,
  Memory, IsUserSpace, word, Ends, ok-Ends, err-Ends, >>=-Ends, if-Ends,
}
use clientplugin.Base.Int.{ℤ}
use clientplugin.DataView.{read, read_string}
use clientplugin.DataView.Advance.{read_advance}
use clientplugin.DataView.Total.{
  read-Ends, read_string-Ends, read_uleb128-Ends, read_sleb128-Ends, no_application-Ends,
}
use clientplugin.EhFrame.Cie.{augment, augment_all, cie_body, handle_cie, personality}

personality-Ends : (v : Option ℤ) (encoding p : ℕ) → Ends (personality v encoding p)
unfolding personality
personality-Ends none encoding p = err-Ends _
personality-Ends (some v) encoding p = ok-Ends _

augment-Ends : (c : ℕ) (m : Memory) (encoding p : ℕ) → Ends (augment c m encoding p)
unfolding augment
augment-Ends c m encoding p = if-Ends _ _ _ (ok-Ends _) (
    if-Ends _ _ _ (read-Ends 1 m p) (
      if-Ends _ _ _ (>>=-Ends _ _ (read-Ends 1 m p) λ r _. ok-Ends _) (
        if-Ends _ _ _
          (>>=-Ends _ _ (read-Ends 1 m p) λ r _.
            >>=-Ends _ _ (no_application-Ends r.0 m r.1) λ v _. personality-Ends v.0 encoding v.1)
          (err-Ends _))))

augment_all-Ends : (cs : List ℕ) (m : Memory) (encoding p : ℕ) → Ends (augment_all cs m encoding p)
unfolding augment_all
augment_all-Ends [] m encoding p = ok-Ends _
augment_all-Ends (c ∷ cs) m encoding p =
    >>=-Ends _ _ (augment-Ends c m encoding p) λ r _. augment_all-Ends cs m r.0 r.1

module _ {m : Memory} (user : IsUserSpace m) {B : Type 0} where
  -- A read, and what follows it at a pointer that has not wrapped.
  read_then :
      (size p : ℕ) (f : ℕ × ℕ → Result B)
      → p < word
      → ((v q : ℕ) → q < word → Ends (f (v, q)))
      → Ends (read size m p >>= f)
  read_then size p f hp after =
      >>=-Ends (read size m p) f (read-Ends size m p)
        λ r e. after r.0 r.1 (read_advance user size p hp e).1

  string_then :
      (p : ℕ) (f : List ℕ × ℕ → Result B)
      → p < word
      → ((s : List ℕ) (q : ℕ) → Ends (f (s, q)))
      → Ends (read_string m p >>= f)
  string_then p f hp after =
      >>=-Ends (read_string m p) f (read_string-Ends user p hp) λ r e. after r.0 r.1

require_then {ℓ} :
    {B : Type ℓ} (b : Bool) (x : Error) (k : Result B) → Ends k → Ends (require b x >> k)
require_then true x k h = h
require_then false x k h = err-Ends x

cie_body-Ends : (m : Memory) (augmentation : List ℕ) (p : ℕ) → Ends (cie_body augmentation m p)
unfolding cie_body
cie_body-Ends m augmentation p = >>=-Ends _ _ (read_uleb128-Ends m p) λ r5 _.
    >>=-Ends _ _ (read_sleb128-Ends m r5.1) λ r6 _. >>=-Ends _ _ (read-Ends 1 m r6.1) λ r7 _.
      if-Ends _ _ _
        (>>=-Ends _ _ (read_uleb128-Ends m r7.1)
          λ r8 _. >>=-Ends _ _ (augment_all-Ends augmentation m 0 r8.1) λ r9 _. ok-Ends _)
        (ok-Ends _)

-- In user space `handle_cie` returns or throws, wherever the CIE is said to stand.
pub handle_cie-Ends :
    {m : Memory} (user : IsUserSpace m) (cie_address : ℕ)
    → cie_address < word
    → Ends (handle_cie m cie_address)
unfolding handle_cie
handle_cie-Ends {m} user p hp = read_then user 4 p _ hp λ v1 p1 h1. require_then _ _ _ (
    read_then user 4 p1 _ h1 λ v2 p2 h2. require_then _ _ _ (
      read_then user 1 p2 _ h2
        λ v3 p3 h3. require_then _ _ _ (string_then user p3 _ h3 λ s p4. cie_body-Ends m s p4)))
