-- ===== src/Memory/Configs.antt =====
-- server/internal/infrastructure/memory/config.go; the methods of
-- lock.go beside it do nothing. `held` is the state of the mutex: a
-- call that would wait for it, or that unlocks it when it is free, gives `none`. A stored
-- configuration is a value, so a caller who later changes one that they saved is not modelled.
use reearth_accounts.Prelude.{
  ◌≡◌, refl, Bool, true, false, not, Option, none, some, arith, if◌then◌else◌,
}
use reearth_accounts.Documents.Configs.{Auth, Config, zero_config}

pub record ConfigRepo : Type 0 where
  pub held : Bool
  pub locked : Bool
  pub config : Option Config

-- `NewConfig`
abbrev pub new_config : ConfigRepo
new_config = record { held = false; locked = false; config = none }

-- `LockAndLoad`
unfoldable pub lock_and_load : ConfigRepo → Option (Option Config × ConfigRepo)
lock_and_load r = if r.held then none else some (r.config, record r { held = true; locked = true })

-- `Save`
unfoldable pub save : ConfigRepo → Option Config → ConfigRepo
save r none = r
save r (some c) = record r { config = some c }

abbrev or_zero : Option Config → Config
or_zero none = zero_config
or_zero (some c) = c

-- `SaveAuth`
unfoldable pub save_auth : ConfigRepo → Option Auth → ConfigRepo
save_auth r none = r
save_auth r (some a) = record r { config = some (record (or_zero r.config) { auth = some a }) }

-- `Unlock`
unfoldable pub unlock : ConfigRepo → Option ConfigRepo
unlock r =
    if not r.locked
    then some r
    else if r.held
    then some (record r { held = false; locked = false })
    else none

-- `SaveAndUnlock`
unfoldable pub save_and_unlock : ConfigRepo → Option Config → Option ConfigRepo
unfolding save unlock
save_and_unlock r c = unlock (save r c)

-- The mutex is held exactly while the repository is locked.
abbrev pub IsInStep : ConfigRepo → Type 0
IsInStep r = r.held ≡ r.locked

pub data Call : Type 0 where
  loading unlocking : Call
  saving saving_and_unlocking : Option Config → Call
  saving_auth : Option Auth → Call

abbrev after_load : Option (Option Config × ConfigRepo) → Option ConfigRepo
after_load none = none
after_load (some (c, r)) = some r

-- The state after a call that neither waits for ever nor panics
unfoldable pub call : ConfigRepo → Call → Option ConfigRepo
unfolding lock_and_load save save_auth unlock save_and_unlock
call r loading = after_load (lock_and_load r)
call r unlocking = unlock r
call r (saving c) = some (save r c)
call r (saving_and_unlocking c) = save_and_unlock r c
call r (saving_auth a) = some (save_auth r a)

-- A call keeps the two in step.
pub call-IsInStep : (r r' : ConfigRepo) (c : Call) → IsInStep r → call r c ≡ some r' → IsInStep r'
unfolding call
call-IsInStep r r' loading h e = ground arith
call-IsInStep r r' unlocking h e = ground arith
call-IsInStep r r' (saving none) h e = ground arith
call-IsInStep r r' (saving (some c)) h e = ground arith
call-IsInStep r r' (saving_and_unlocking none) h e = ground arith
call-IsInStep r r' (saving_and_unlocking (some c)) h e = ground arith
call-IsInStep r r' (saving_auth none) h e = ground arith
call-IsInStep r r' (saving_auth (some a)) h e = ground arith

-- Where they are in step, saving and unlocking does not panic, and the next loading gives what was
-- saved.
pub load-save_and_unlock :
    (r : ConfigRepo) (c : Config)
    → IsInStep r
    → let r' : ConfigRepo = record { held = false; locked = false; config = some c } in
      (save_and_unlock r (some c) ≡ some r')
      × (lock_and_load r' ≡ some (some c, record r' { held = true; locked = true }))
unfolding lock_and_load save_and_unlock
load-save_and_unlock r c h = (ground arith, refl)
