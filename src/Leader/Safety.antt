-- ===== src/Leader/Safety.antt =====
-- On services/task_manager/common/app_common/leader_lock.py: who holds the key while others act.
use live_streaming_data_pipe.Base.{
  ℕ, zero, suc, ◌+◌, ◌≤◌, ◌<◌, ◌≡◌, ◌≢◌, refl, Text, text_eq, text_eq_refl, text_eq-eq_false, Bool,
  true, false, none, some, List, [], ◌∷◌, In, if◌then◌else◌, arith, sym, ◌∙◌,
}
use live_streaming_data_pipe.Leader.{
  Key, Lock, lock_ttl, acquire, holds, expire, after_read, release_read, release_delete, left_after,
  tick,
}

-- The key, and the releases whose read has found their own identity and whose delete is still to come.
pub record Shared : Type 0 where
  pub key : Key
  pub deletes : List Lock

abbrev pub with_key : Key → Shared → Shared
with_key k s = record s { key = k }

-- After the read of a release.
abbrev pub after_release_read : Lock → Shared → Shared
after_release_read l s = record s {
  deletes = if release_read l s.key then l ∷ s.deletes else s.deletes;
}

-- A run of any processes, with the seconds that pass in it. Any process may try to acquire, may finish a
-- pass of its renew loop whatever it has read before, and may do either command of a release, with
-- others between the two; only no process with the identity `h` starts a release.
pub data Run (h : Text) : ℕ → Shared → Shared → Type 0 where
  idle : (s : Shared) → Run h 0 s s
  acquires :
      (l : Lock) (n : ℕ) (s s' : Shared)
      → Run h n (with_key (acquire l s.key).1 s) s'
      → Run h n s s'
  renews :
      (b : Bool) (l : Lock) (n : ℕ) (s s' : Shared)
      → Run h n (with_key (after_read b l s.key).1 s) s'
      → Run h n s s'
  release_reads :
      (l : Lock) (n : ℕ) (s s' : Shared)
      → l.identity ≢ h
      → Run h n (after_release_read l s) s'
      → Run h n s s'
  release_deletes :
      (l : Lock) (n : ℕ) (s s' : Shared)
      → In l s.deletes
      → Run h n (with_key (release_delete true l s.key).1 s) s'
      → Run h n s s'
  ticks : (n : ℕ) (s s' : Shared) → Run h n (with_key (tick s.key) s) s' → Run h (suc n) s s'

-- `h` holds the key, and more than `n` seconds are left, but not more than the time to live.
abbrev pub Held : Text → ℕ → Key → Type 0
Held h n none = ⊥
Held h n (some e) = (e.holder ≡ h) × (n < e.left) × (e.left ≤ lock_ttl)

acquire-Held : (h : Text) (n : ℕ) (l : Lock) (k : Key) → Held h n k → Held h n (acquire l k).1
unfolding acquire
acquire-Held h n l none p = absurd p
acquire-Held h n l (some e) p = p

after_read-Held :
    (h : Text) (n : ℕ) (b : Bool) (l : Lock) (k : Key) → Held h n k → Held h n (after_read b l k).1
unfolding after_read
after_read-Held h n false l k p = p
after_read-Held h n true l none p = absurd p
after_read-Held h n true l (some e) p = (p.0, omega (arith, p.1, p.2), omega arith)

left_after-Held :
    (h : Text) (n : ℕ) (holder : Text) (left : ℕ)
    → holder ≡ h
    → suc n < left
    → left ≤ lock_ttl
    → Held h n (left_after holder left)
left_after-Held h n holder zero e p q = absurd (omega arith)
left_after-Held h n holder (suc zero) e p q = absurd (omega arith)
left_after-Held h n holder (suc (suc m)) e p q = (e, omega (arith, p), omega (arith, q))

tick-Held : (h : Text) (n : ℕ) (k : Key) → Held h (suc n) k → Held h n (tick k)
unfolding tick
tick-Held h n none p = absurd p
tick-Held h n (some e) p = left_after-Held h n e.holder e.left p.0 p.1 p.2

less-Held : (h : Text) (i j : ℕ) (k : Key) → i ≤ j → Held h j k → Held h i k
less-Held h i j none le p = absurd p
less-Held h i j (some e) le p = (p.0, omega (arith, p.1, le), p.2)

-- The read of another process does not find its identity at a key that is held.
Held-release_read :
    (h : Text) (n : ℕ) (l : Lock) (k : Key) → l.identity ≢ h → Held h n k → release_read l k ≡ false
unfolding release_read
Held-release_read h n l none ne p = absurd p
Held-release_read h n l (some e) ne p =
    let differ : text_eq e.holder l.identity ≡ false =
      text_eq-eq_false e.holder l.identity (λ q. ne (sym q ∙ p.0)) in
    ground (arith, differ)

-- The key is held, and no delete is to come.
abbrev pub Safe : Text → ℕ → Shared → Type 0
Safe h n s = Held h n s.key × (s.deletes ≡ [])

less-Safe : (h : Text) (i j : ℕ) (s : Shared) → i ≤ j → Safe h j s → Safe h i s
less-Safe h i j s le (p, q) = (less-Held h i j s.key le p, q)

after_release_read-Safe :
    (h : Text) (n : ℕ) (l : Lock) (s : Shared)
    → l.identity ≢ h
    → Safe h n s
    → Safe h n (after_release_read l s)
after_release_read-Safe h n l s ne (p, q) = (p, rw (Held-release_read h n l s.key ne p) q)

no_delete : (l : Lock) (ds : List Lock) → ds ≡ [] → In l ds → ⊥
no_delete l [] e i = elim i [ ]
no_delete l (d ∷ ds) e i = cc

-- A run of `n` seconds leaves the key held, with `m` seconds less than it had.
Run-Safe : (h : Text) (n m : ℕ) (s s' : Shared) → Run h n s s' → Safe h (n + m) s → Safe h m s'
Run-Safe h _ m _ _ (idle s) p = less-Safe h m (0 + m) s (omega arith) p
Run-Safe h _ m _ _ (acquires l n s s' r) (p, q) =
    Run-Safe h n m (with_key (acquire l s.key).1 s) s' r (acquire-Held h (n + m) l s.key p, q)
Run-Safe h _ m _ _ (renews b l n s s' r) (p, q) =
    Run-Safe h n m (with_key (after_read b l s.key).1 s) s' r
      (after_read-Held h (n + m) b l s.key p, q)
Run-Safe h _ m _ _ (release_reads l n s s' ne r) p =
    Run-Safe h n m (after_release_read l s) s' r (after_release_read-Safe h (n + m) l s ne p)
Run-Safe h _ m _ _ (release_deletes l n s s' i r) (p, q) = absurd (no_delete l s.deletes q i)
Run-Safe h _ m _ _ (ticks n s s' r) (p, q) =
    Run-Safe h n m (with_key (tick s.key) s) s' r
      (tick-Held h (n + m) s.key (less-Held h (suc (n + m)) (suc n + m) s.key (omega arith) p), q)

-- The state after a pass of the own renew loop, which read the key at `s` and goes on at `t`.
abbrev pub renewed : Lock → Shared → Shared → Shared
renewed l s t = with_key (after_read (holds l s.key) l t.key).1 t

-- Rounds of one process: the read and the second command of each pass of its renew loop, with runs of at
-- most 14 seconds in all before the read and between the two.
pub data Rounds (l : Lock) : Shared → Shared → Type 0 where
  rest : (s : Shared) → Rounds l s s
  round :
      (n m : ℕ) (s t u v : Shared)
      → n + m ≤ 14
      → Run l.identity n s t
      → Run l.identity m t u
      → Rounds l (renewed l t u) v
      → Rounds l s v

Held-holds : (l : Lock) (n : ℕ) (k : Key) → Held l.identity n k → holds l k ≡ true
unfolding holds
Held-holds l n none p = absurd p
Held-holds l n (some e) p = rw p.0 (text_eq_refl l.identity)

expired_later :
    (l : Lock) (n : ℕ) (k : Key) → Held l.identity n k → Held l.identity 14 (after_read true l k).1
unfolding after_read expire
expired_later l n none p = absurd p
expired_later l n (some e) p = (p.0, omega arith, omega arith)

renewed-Safe :
    (l : Lock) (m : ℕ) (t u : Shared)
    → Safe l.identity m t
    → Safe l.identity 0 u
    → Safe l.identity 14 (renewed l t u)
renewed-Safe l m t u p q = (rw (Held-holds l m t.key p.0) (expired_later l 0 u.key q.0), q.1)

Rounds-Safe :
    (l : Lock) (s s' : Shared) → Rounds l s s' → Safe l.identity 14 s → Safe l.identity 14 s'
Rounds-Safe l _ _ (rest s) p = p
Rounds-Safe l _ _ (round n m s t u v le before between rs) p =
    let read =
      Run-Safe l.identity n (m + 0) s t before
        (less-Safe l.identity (n + (m + 0)) 14 s (omega (arith, le)) p) in
    Rounds-Safe l (renewed l t u) v rs
      (renewed-Safe l (m + 0) t u read (Run-Safe l.identity m 0 t u between read))

-- Others cannot acquire a key that is held.
Held-acquire : (h : Text) (n : ℕ) (k : Key) (l : Lock) → Held h n k → acquire l k ≡ (l, k)
unfolding acquire
Held-acquire h n none l p = absurd p
Held-acquire h n (some e) l p = refl

-- A process wins a free key when no release of another process is between its read and its delete. Then
-- after any number of passes of its own renew loop, and for at most 14 seconds more, every process
-- that tries to acquire fails and leaves the key as it is; before and in each pass at most 14 seconds
-- go by, in which any process may try to acquire, finish a late pass of its renew loop, and, with
-- another identity, do the two commands of a release with others between them.
pub acquire-excludes :
    (l l' : Lock) (s s' : Shared) (n : ℕ)
    → Rounds (acquire l none).0 (record { key = (acquire l none).1; deletes = [] }) s
    → n ≤ 14
    → Run l.identity n s s'
    → acquire l' s'.key ≡ (l', s'.key)
unfolding acquire
acquire-excludes l l' s s' n rs le r =
    let won : Safe l.identity 14 (record { key = (acquire l none).1; deletes = [] }) =
      ((refl, omega arith, omega arith), refl) in
    let at_end =
      Rounds-Safe (acquire l none).0 (record { key = (acquire l none).1; deletes = [] }) s rs won in
    Held-acquire l.identity 0 s'.key l' (
      (Run-Safe l.identity n 0 s s' r
        (less-Safe l.identity (n + 0) 14 s (omega (arith, le)) at_end)).0)
