-- ===== src/Bytes/Writes.antt =====
-- Writing into a slice: `copy` and the `Put` functions as writes with a reach, run in order.
pub mod Laws
use go_smb.Common.{
  ℕ, zero, suc, ◌+◌, ◌-◌, ◌≤◌, Bool, true, false, ◌||◌, Option, none, some, List, [], ◌∷◌, map,
  length, take, leb, ◌==◌, ◌&&◌, if◌then◌else◌, ◌>>=◌, All,
}
use go_smb.Bytes.{Slice, encode_le}

-- Elements from `o` on are replaced; nothing is written past the end.
unfoldable pub overwrite : List ℕ → ℕ → List ℕ → List ℕ
overwrite [] o src = []
overwrite (x ∷ xs) zero [] = x ∷ xs
overwrite (x ∷ xs) zero (s ∷ src) = s ∷ overwrite xs zero src
overwrite (x ∷ xs) (suc o) src = x ∷ overwrite xs o src

-- One write: it slices `p[at:reach]` first, which panics beyond the capacity, and puts `bytes`
-- there. An element that is assigned by its index panics beyond the length already.
pub record Write : Type 0 where
  pub at : ℕ
  pub reach : ℕ
  pub bytes : List ℕ
  pub indexed : Bool

-- `le.PutUintN(p[o:o+w], v)`.
abbrev pub put_le : ℕ → ℕ → ℕ → Write
put_le w o v = record { at = o; reach = o + w; bytes = encode_le w v; indexed = false }

-- `copy(p[o:e], src)`: as many elements as both have.
abbrev pub copy_into : ℕ → ℕ → List ℕ → Write
copy_into o e src = record { at = o; reach = e; bytes = take (e - o) src; indexed = false }

-- `p[o] = v`.
abbrev pub put_byte : ℕ → ℕ → Write
put_byte o v = record { at = o; reach = o + 1; bytes = v ∷ []; indexed = true }

-- Writes through `req := p[n:]` are writes to `p`.
abbrev pub shift : ℕ → Write → Write
shift n x = record { at = n + x.at; reach = n + x.reach; bytes = x.bytes; indexed = x.indexed }

unfoldable pub write : Write → Slice → Option Slice
unfolding overwrite
write x p =
    if leb x.at x.reach && leb x.reach (if x.indexed then p.len else length p.bytes)
    then some (record p { bytes = overwrite p.bytes x.at x.bytes })
    else none

-- The writes in order; a panic ends them.
unfoldable pub writes : List Write → Slice → Option Slice
unfolding write
writes [] p = some p
writes (x ∷ xs) p = write x p >>= writes xs

-- Every write stays inside its reach, and every reach below `n`.
abbrev pub Fits : ℕ → List Write → Type 0
Fits n = All (λ x. (x.at + length x.bytes ≤ x.reach) × (x.reach ≤ n))

-- The write does not touch the `w` elements from `o` on.
abbrev pub apart : ℕ → ℕ → Write → Bool
apart o w x = leb (o + w) x.at || leb (x.at + length x.bytes) o

-- What is known of the `w` elements from `o` on after one more write: what was known, if it does not
-- touch them, and its bytes, if it is just there.
abbrev pub after_write : ℕ → ℕ → Option (List ℕ) → Write → Option (List ℕ)
after_write o w before x =
    if apart o w x then before else if x.at == o && length x.bytes == w then some x.bytes else none

-- The same after all the writes, from the places alone.
abbrev pub found : ℕ → ℕ → Option (List ℕ) → List Write → Option (List ℕ)
found o w before [] = before
found o w before (x ∷ xs) = found o w (after_write o w before x) xs
