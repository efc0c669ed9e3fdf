-- ===== src/Scan/Ring.antt =====
-- The sample ring of crates/plc-scan/src/spsc.rs. The queue is a list with its front first; the
-- producer's `try_lock` fails where the consumer holds the mutex, which the caller of the model
-- chooses.
pub mod Accounting
use my_soft_plc.Prelude.{
  ℕ, ◌+◌, ◌%◌, ◌^◌, Bool, true, false, Option, none, some, List, [], ◌∷◌, ◌++◌, leb, max, length,
  if◌then◌else◌,
}

-- `fetch_add(1)` of an `AtomicU64`.
abbrev pub count_drop : ℕ → ℕ
count_drop n = (n + 1) % 2 ^ 64

module _ {ℓ} where
  pub record Ring (A : Type ℓ) : Type ℓ where
    pub queue : List A
    pub cap : ℕ
    pub drops : ℕ  -- u64

module _ {ℓ} {A : Type ℓ} where
  unfoldable pub channel : ℕ → Ring A
  channel capacity = record { queue = []; cap = max capacity 1; drops = 0 }

  -- `pop_front`.
  abbrev pub pop_front : List A → List A
  pop_front [] = []
  pop_front (x ∷ xs) = xs

  abbrev pub front : List A → Option A
  front [] = none
  front (x ∷ xs) = some x

  -- `locked`: the mutex is held by the consumer.
  unfoldable pub push_drop_oldest : Ring A → Bool → A → Ring A
  push_drop_oldest r locked value =
      if locked
      then record r { drops = count_drop r.drops }
      else if leb r.cap (length r.queue)
      then record r { queue = pop_front r.queue ++ value ∷ []; drops = count_drop r.drops }
      else record r { queue = r.queue ++ value ∷ [] }

  unfoldable pub try_recv : Ring A → Ring A × Option A
  try_recv r = (record r { queue = pop_front r.queue }, front r.queue)
