-- ===== src/CrossLock/Refine.antt =====
-- The main node of an i-shard is the lock.
use monosulfide.Prelude.{
  ℕ, ◌≡◌, refl, true, false, List, [], ◌∷◌, none, some, deref, get_elem?, bytes, bytes_eq, arith,
  Bool-cases, inl, inr, Ensures, ensured, panics, Ensures-bind, Ensures-step, Ensures-test,
  Ensures-option, deref_ok, bytes_eq_iff,
}
use monosulfide.Prelude.Maps.{lookup}
use monosulfide.Content.{Bytes}
use monosulfide.IdChain.{Node}
use monosulfide.Proposals.{set_threshold, cross_priority, lowest_priority}
use monosulfide.CrossLock.{
  CrossLockCom, LockMsg, Event, requested, responded, released, is_b_shard, block_inner,
  unblock_inner, answer_b, b_main_addr, link, handle_request, respond_i, unblock_self,
  take_response, handle_response, handle, handle_all, fail_byte, success_byte,
}
use monosulfide.CrossLock.Lock.{Lock, free, draining, held, lock_step, lock_run, says_fail}

-- The fields that show the lock.
abbrev pub Shows : Lock → CrossLockCom → Type 0
Shows free lc = (lc.b_main_node ≡ none) × (lc.inner_blocked ≡ false)
Shows draining lc = (lc.b_main_node ≡ none) × (lc.inner_blocked ≡ true)
Shows (held key) lc = (lc.b_main_node ≡ some key) × (lc.inner_blocked ≡ true)

-- Which proposals go on: all of them with a free lock, those of cross blocks otherwise.
abbrev pub level_of : Lock → ℕ
level_of free = lowest_priority
level_of draining = cross_priority
level_of (held key) = cross_priority

-- The main node `self` of an i-shard is in a state of the lock.
abbrev pub Follows : Bytes → Lock → CrossLockCom → Type 0
Follows self lock lc =
    Shows lock lc
    × (lc.running_node ≡ self)
    × (lc.related_i_shard ≡ 0)
    × (lc.buffer.prior_threshold ≡ level_of lock)

answer_b-Follows :
    (self key byte : Bytes) (lc : CrossLockCom)
    → Follows self (held key) lc
    → Ensures (Follows self (held key)) (answer_b byte lc)
unfolding answer_b
answer_b-Follows self key byte lc follows =
    Ensures-step (b_main_addr lc) _ λ addr e. ensured _ follows

link-Follows :
    (self : Bytes) (lock : Lock) (lc : CrossLockCom) (remote : Node) (msg : LockMsg)
    → Follows self lock lc
    → Ensures (λ out. Follows self (lock_step self lock (requested msg)) out.1) (link remote msg lc)
unfolding link lock_step block_inner set_threshold
link-Follows self free lc remote msg ((nobody, open_inner), is_self, is_i, level) =
    rw (nobody, open_inner)
      (Ensures-bind _
        (answer_b-Follows self msg.remote_info success_byte
          (block_inner (record lc { b_main_node = some msg.remote_info }))
          ((refl, refl), is_self, is_i, refl))
        λ after follows. ensured _ follows)
link-Follows self draining lc remote msg ((nobody, blocked), is_self, is_i, level) =
    rw (nobody, blocked) (ensured _ ((refl, refl), is_self, is_i, level))
link-Follows self (held key) lc remote msg ((holder, blocked), is_self, is_i, level) =
    rw holder (ensured _ ((refl, blocked), is_self, is_i, level))

unblock_self-Follows :
    (self : Bytes) (lc : CrossLockCom) (msg : LockMsg)
    → lc.running_node ≡ self
    → lc.related_i_shard ≡ 0
    → Ensures (Follows self free) (unblock_self msg lc)
unfolding unblock_self unblock_inner set_threshold
unblock_self-Follows self lc msg is_self is_i =
    Ensures-step (deref (get_elem? msg.contents 0)) _ λ byte e.
      Ensures-test (bytes_eq byte fail_byte)
        (λ fails. ensured _ ((refl, refl), is_self, is_i, refl)) λ other. panics

says_fail-byte :
    (msg : LockMsg) (byte : Bytes)
    → get_elem? msg.contents 0 ≡ some byte
    → says_fail msg ≡ bytes_eq byte fail_byte
says_fail-byte msg byte e = ground (arith, e)

success-not_fail :
    (byte : Bytes) → bytes_eq byte success_byte ≡ true → bytes_eq byte fail_byte ≡ false
unfolding bytes_eq
success-not_fail byte e = rw ((bytes_eq_iff byte success_byte).0 e) refl

take_response-Follows :
    (self : Bytes) (lock : Lock) (lc : CrossLockCom) (msg : LockMsg)
    → bytes_eq msg.remote_info self ≡ false
    → Follows self lock lc
    → Ensures (Follows self (lock_step self lock (responded msg))) (take_response msg lc)
unfolding take_response lock_step unblock_inner set_threshold
take_response-Follows self free lc msg other ((nobody, open_inner), is_self, is_i, level) =
    rw nobody (ensured _ ((refl, open_inner), is_self, is_i, level))
take_response-Follows self draining lc msg other ((nobody, blocked), is_self, is_i, level) =
    rw (nobody, other) (ensured _ ((refl, blocked), is_self, is_i, level))
take_response-Follows self (held key) lc msg other ((holder, blocked), is_self, is_i, level) =
    rw (holder, blocked, other)
      (elim (Bool-cases (bytes_eq key msg.remote_info)) [
        | inl from_holder ↦ rw from_holder (
            Ensures-step (deref (get_elem? msg.contents 0)) _ λ byte e.
              let said = says_fail-byte msg byte (deref_ok (get_elem? msg.contents 0) byte e) in
              Ensures-test (bytes_eq byte success_byte)
                (λ succeeds.
                  rw (said, success-not_fail byte succeeds)
                    (ensured _ ((refl, refl), is_self, is_i, level)))
                λ other_byte.
                  Ensures-test (bytes_eq byte fail_byte)
                    (λ fails. rw (said, fails) (ensured _ ((refl, refl), is_self, is_i, refl)))
                    λ neither. panics)
        | inr stranger ↦ rw stranger (ensured _ ((refl, refl), is_self, is_i, level))
      ])

respond_i-Follows :
    (self : Bytes) (lock : Lock) (lc : CrossLockCom)
    → Follows self lock lc
    → Ensures (Follows self (lock_step self lock released)) (respond_i lc)
unfolding respond_i lock_step
respond_i-Follows self free lc ((nobody, open_inner), is_self, is_i, level) = rw nobody panics
respond_i-Follows self draining lc ((nobody, blocked), is_self, is_i, level) = rw nobody panics
respond_i-Follows self (held key) lc ((holder, blocked), is_self, is_i, level) =
    Ensures-step (b_main_addr lc) _ λ addr e. ensured _ ((refl, blocked), is_self, is_i, level)

lock_step_self :
    (self : Bytes) (lock : Lock) (msg : LockMsg)
    → bytes_eq msg.remote_info self ≡ true
    → lock_step self lock (responded msg) ≡ free
unfolding lock_step
lock_step_self self free msg own = refl
lock_step_self self draining msg own = rw own refl
lock_step_self self (held key) msg own = rw own refl

not_b_shard : (lc : CrossLockCom) → lc.related_i_shard ≡ 0 → is_b_shard lc ≡ false
not_b_shard lc is_i = ground (arith, is_i)

handle_response-Follows :
    (self : Bytes) (lock : Lock) (lc : CrossLockCom) (msg : LockMsg)
    → Follows self lock lc
    → Ensures (Follows self (lock_step self lock (responded msg))) (handle_response lc msg)
unfolding handle_response
handle_response-Follows self lock lc msg follows =
    Ensures-option (lookup msg.remote_info lc.node_map) _ _ (λ unknown. panics)
      λ sender e.
        Ensures-test (bytes_eq msg.remote_info lc.running_node)
          (λ own.
            rw (lock_step_self self lock msg (rw follows.1 at own))
              (unblock_self-Follows self lc msg follows.1 follows.2))
          λ other.
            rw (not_b_shard lc follows.2)
              (take_response-Follows self lock lc msg (rw follows.1 at other) follows)

handle-Follows :
    (self : Bytes) (lock : Lock) (lc : CrossLockCom) (e : Event)
    → Follows self lock lc
    → Ensures (Follows self (lock_step self lock e)) (handle lc e)
unfolding handle handle_request
handle-Follows self lock lc (requested msg) follows =
    Ensures-bind _
      (Ensures-step (deref (lookup msg.remote_info lc.node_map)) _
        λ remote e. rw (not_b_shard lc follows.2) (link-Follows self lock lc remote msg follows))
      λ out after. ensured _ after
handle-Follows self lock lc (responded msg) follows =
    handle_response-Follows self lock lc msg follows
handle-Follows self lock lc released follows = respond_i-Follows self lock lc follows

-- Over any sequence of messages and of its own responses, the main node of an i-shard is the lock,
-- where it does not panic: it is linked with the b-shard that holds the lock, and with no other until
-- that one or the node itself has let go, and only proposals of cross blocks go on meanwhile.
pub handle_all-Follows :
    (self : Bytes) (lock : Lock) (lc : CrossLockCom) (events : List Event)
    → Follows self lock lc
    → Ensures (Follows self (lock_run self lock events)) (handle_all lc events)
unfolding handle_all lock_run
handle_all-Follows self lock lc [] follows = ensured lc follows
handle_all-Follows self lock lc (e ∷ events) follows =
    Ensures-bind _ (handle-Follows self lock lc e follows)
      λ after next. handle_all-Follows self (lock_step self lock e) after events next
