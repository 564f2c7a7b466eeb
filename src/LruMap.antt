-- ===== src/LruMap.antt =====
-- The kernel's LRU hash map, keyed by an IPv4 address, as both halves of the program use it. Which
-- entries a full map evicts on a write is left open.
use ghostbro.Base.{ℕ, ◌≡◌, ◌≢◌, ◌⊎◌, Option, none, some, if◌then◌else◌, nat_beq}

pub record LruMap (V : Type 0) : Type 1 where
  pub Store : Type 0
  pub get : Store → ℕ → Option V
  -- From the XDP program, which does not look at the outcome.
  pub put : Store → ℕ → V → Store
  pub drop_key : Store → ℕ → Store
  -- From user space: the system call, and `none` where it returns an error.
  pub update : Store → ℕ → V → Option Store
  pub delete : Store → ℕ → Option Store

pub record LruMapLaws {V : Type 0} (m : LruMap V) : Type 1 where
  pub get-drop_key :
      (s : m.Store) (k j : ℕ) → m.get (m.drop_key s k) j ≡ (if nat_beq k j then none else m.get s j)
  -- A write that succeeds is seen; it may have evicted other keys, and changes none.
  pub get-update_self :
      (s t : m.Store) (k : ℕ) (v : V) → m.update s k v ≡ some t → m.get t k ≡ some v
  pub get-update_other :
      (s t : m.Store) (k j : ℕ) (v : V)
      → m.update s k v ≡ some t
      → k ≢ j
      → (m.get t j ≡ m.get s j) ⊎ (m.get t j ≡ none)
  -- Deleting is an error (ENOENT) where the key is absent.
  pub delete_absent : (s : m.Store) (k : ℕ) → m.get s k ≡ none → m.delete s k ≡ none
  pub get-delete :
      (s t : m.Store) (k j : ℕ)
      → m.delete s k ≡ some t
      → m.get t j ≡ (if nat_beq k j then none else m.get s j)
