-- ===== src/Core/Locks.antt =====
-- The mutexes per key that the reconciler's operations hold: internal/core/keyedmutex.go. What runs
-- under `k.mu` is one step; so are the locking and the unlocking of an entry's own mutex.
pub mod Runs
pub mod Safety
pub mod Invariant
pub mod Cells
pub mod Moves
pub mod Releases
use ramify.Prelude.{
  ℕ, String, ◌+◌, ◌-◌, ◌==◌, Bool, true, false, ◌≡◌, Option, none, some, List, [], ◌∷◌, ◌++◌,
  if◌then◌else◌, str_eq,
}

unfoldable pub set_at : {A : Type 0} → ℕ → A → (ℕ → A) → ℕ → A
set_at a v f x = if x == a then v else f x

unfoldable pub set_key : String → Option ℕ → (String → Option ℕ) → String → Option ℕ
set_key k v f x = if str_eq x k then v else f x

-- `locks` maps a key to the address of its entry; `refs` and `is_locked` are the fields of the entry
-- at an address, and `next` is the next address to allocate.
pub record KeyedMutex : Type 0 where
  pub locks : String → Option ℕ
  pub refs : ℕ → ℕ
  pub is_locked : ℕ → Bool
  pub next : ℕ

-- `if !ok { e = &refCountedMutex{}; k.locks[key] = e }; e.refs++`, from the entry that is found
unfoldable pub take_entry : String → Option ℕ → KeyedMutex → ℕ × KeyedMutex
unfolding set_at set_key
take_entry key (some e) k = (e, record k { refs = set_at e (k.refs e + 1) k.refs })
take_entry key none k = (
  k.next,
  record {
    locks = set_key key (some k.next) k.locks;
    refs = set_at k.next 1 k.refs;
    is_locked = set_at k.next false k.is_locked;
    next = k.next + 1;
  },
)

unfoldable pub register : String → KeyedMutex → ℕ × KeyedMutex
unfolding take_entry
register key k = take_entry key (k.locks key) k

unfoldable pub forget : String → ℕ → KeyedMutex → KeyedMutex
unfolding set_at set_key
forget key e k =
    let less = record k { refs = set_at e (k.refs e - 1) k.refs } in
    if k.refs e - 1 == 0 then record less { locks = set_key key none k.locks } else less

unfoldable pub lock_entry : ℕ → Bool → KeyedMutex → KeyedMutex
unfolding set_at
lock_entry e b k = record k { is_locked = set_at e b k.is_locked }

pub data Stage : Type 0 where
  waiting holding released : Stage

-- Where a caller of Lock is: outside, or with the entry that it was given.
pub data Caller : Type 0 where
  outside : Caller
  inside : Stage → String → ℕ → Caller

pub record System : Type 0 where
  pub callers : List Caller
  pub mutex : KeyedMutex

-- One step of one caller, the other callers at rest.
pub data Step : System → System → Type 0 where
  registers :
      (xs ys : List Caller) (key : String) (k : KeyedMutex)
      → Step
          (record { callers = xs ++ outside ∷ ys; mutex = k })
          (record {
            callers = xs ++ inside waiting key (register key k).0 ∷ ys;
            mutex = (register key k).1;
          })
  enters :
      (xs ys : List Caller) (key : String) (e : ℕ) (k : KeyedMutex)
      → k.is_locked e ≡ false
      → Step
          (record { callers = xs ++ inside waiting key e ∷ ys; mutex = k })
          (record { callers = xs ++ inside holding key e ∷ ys; mutex = lock_entry e true k })
  leaves :
      (xs ys : List Caller) (key : String) (e : ℕ) (k : KeyedMutex)
      → Step
          (record { callers = xs ++ inside holding key e ∷ ys; mutex = k })
          (record { callers = xs ++ inside released key e ∷ ys; mutex = lock_entry e false k })
  forgets :
      (xs ys : List Caller) (key : String) (e : ℕ) (k : KeyedMutex)
      → Step
          (record { callers = xs ++ inside released key e ∷ ys; mutex = k })
          (record { callers = xs ++ outside ∷ ys; mutex = forget key e k })

pub data Reaches : System → System → Type 0 where
  here : {s : System} → Reaches s s
  step : {s t u : System} → Step s t → Reaches t u → Reaches s u
