-- ===== src/CrossLock/Lock.antt =====
-- What CrossLock promises of an i-shard: a lock that one b-shard holds at a time.
use monosulfide.Prelude.{Bool, false, List, [], ◌∷◌, none, some, if◌then◌else◌, bytes_eq, get_elem?}
use monosulfide.Content.{Bytes}
use monosulfide.CrossLock.{Event, LockMsg, requested, responded, released, fail_byte}

-- A lock that has been let go drains until the node tells itself that the cross block is done.
pub data Lock : Type 0 where
  free draining : Lock
  held : Bytes → Lock

abbrev pub says_fail : LockMsg → Bool
says_fail msg = elim (get_elem? msg.contents 0) [
  | none ↦ false
  | some byte ↦ bytes_eq byte fail_byte
]

-- A free lock is taken by the first b-shard that asks; the holder, by failing, and the node itself
-- free it, and no other message does.
unfoldable pub lock_step : Bytes → Lock → Event → Lock
lock_step self free (requested msg) = held msg.remote_info
lock_step self draining (requested msg) = draining
lock_step self (held key) (requested msg) = held key
lock_step self free (responded msg) = free
lock_step self draining (responded msg) = if bytes_eq msg.remote_info self then free else draining
lock_step self (held key) (responded msg) =
    if bytes_eq msg.remote_info self
    then free
    else if bytes_eq key msg.remote_info
    then (if says_fail msg then free else held key)
    else held key
lock_step self free released = draining
lock_step self draining released = draining
lock_step self (held key) released = draining

unfoldable pub lock_run : Bytes → Lock → List Event → Lock
lock_run self lock [] = lock
lock_run self lock (e ∷ events) = lock_run self (lock_step self lock e) events
