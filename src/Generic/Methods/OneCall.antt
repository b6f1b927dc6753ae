-- ===== src/Generic/Methods/OneCall.antt =====
-- What a method asks of the store (generic.go).
use go_cache.Prelude.{ℕ, Option, none, some, Bytes, codes}
use go_cache.Prelude.Int.{ℤ, pos}
use go_cache.Clock.{Instant}
use go_cache.Outcome.{Result, ok, err}
use go_cache.Error.{Error, no_cache, not_support}
use go_cache.Value.{
  Value, bytes, entry, GenericCacheEntry, of_entry, Target, pointer, entry_type, other_type,
}
use go_cache.InMemory.{Got, failed}
use go_cache.Store.{CacheStore, M}
use go_cache.Generic.{
  Codec, Settings, GenericCache, alone, with_read_cache, settings, encrypt_entry, decrypt_entry,
  exp_or_default,
}
use go_cache.Generic.Writes
use go_cache.Generic.Reads
use go_cache.Generic.Reads.{
  direct, an_entry, own_variable, unsupported, missed, pointee, request, zero_entry, found_of,
}
use go_cache.Generic.Methods.{Method, Reply, perform}
use go_cache.Generic.Methods.Counted.{
  counted, counting, SameEnd, CallsOnce, CallsNone, pure-CallsNone, throw-CallsNone,
  CallsNone-CallsOnce, then-CallsOnce, CallsOnce-then, counting-CallsOnce, asserting-CallsOnce,
}
use go_cache.Generic.Methods.Calling.{
  returning-CallsOnce, one_call, with_store-CallsOnce, by_cache, lifted-CallsNone, if-CallsNone,
  by_error, counting_op-CallsOnce,
}

module _ (s : CacheStore) where
  open s use {World, Pool}

  module _ (k : Codec) where
    seal_payload-CallsNone :
        (c : Settings Pool) (exp : ℤ) (now : Instant) (o : Option Bytes)
        → CallsNone
            (Writes.seal_payload (counted s) k c exp now o)
            (Writes.seal_payload s k c exp now o)
    seal_payload-CallsNone c exp now none = pure-CallsNone _
    seal_payload-CallsNone c exp now (some b) =
        lifted-CallsNone s (encrypt_entry k c b) (Writes.seal_bytes s c exp now)

    seal-CallsNone :
        (c : Settings Pool) (v : Value) (exp : ℤ) (now : Instant)
        → CallsNone (Writes.seal (counted s) k c v exp now) (Writes.seal s k c v exp now)
    unfolding Writes.seal
    seal-CallsNone c (entry d a x) exp now =
        if-CallsNone s c.encrypt_data _ _ _ _ (seal_payload-CallsNone c exp now (k.gob_encode d))
          (pure-CallsNone _)
    seal-CallsNone c v exp now = pure-CallsNone (ok v)

    set_sealed-CallsOnce :
        (p : Pool) (key : Bytes) (exp : ℤ) (r : Result Error Value)
        → CallsOnce (Writes.set_sealed (counted s) p key exp r) (Writes.set_sealed s p key exp r)
    set_sealed-CallsOnce p key exp (err e) = CallsNone-CallsOnce _ _ (pure-CallsNone (some e))
    set_sealed-CallsOnce p key exp (ok v) =
        asserting-CallsOnce (s.is_store p) _ _ (counting-CallsOnce (s.set p key v exp))

    set-CallsOnce :
        (c : GenericCache Pool) (key : Bytes) (v : Value) (exp : ℤ) (now : Instant)
        → CallsOnce (Writes.set (counted s) k c key v exp now) (Writes.set s k c key v exp now)
    unfolding Writes.set
    set-CallsOnce c key v exp now =
        by_cache s ((settings c).cache) _ _ _ _
          (CallsNone-CallsOnce _ _ (pure-CallsNone (some no_cache)))
          (λ p.
            then-CallsOnce (Writes.seal (counted s) k (settings c) v exp now)
              (Writes.seal s k (settings c) v exp now) _ _ (seal-CallsNone (settings c) v exp now)
              (set_sealed-CallsOnce p key (exp_or_default exp (settings c).default_exp)))

    by_request :
        {A : Type 0} (r : Reads.Request) (a b c d : M (World × ℕ) A) (a' b' c' d' : M World A)
        → CallsOnce a a'
        → CallsOnce b b'
        → CallsOnce c c'
        → CallsOnce d d'
        → CallsOnce
            (elim r [ direct ↦ a | an_entry ↦ b | own_variable ↦ c | unsupported ↦ d ])
            (elim r [ direct ↦ a' | an_entry ↦ b' | own_variable ↦ c' | unsupported ↦ d' ])
    by_request Reads.direct a b c d a' b' c' d' h i j l = h
    by_request Reads.an_entry a b c d a' b' c' d' h i j l = i
    by_request Reads.own_variable a b c d a' b' c' d' h i j l = j
    by_request Reads.unsupported a b c d a' b' c' d' h i j l = l

    open_payload-CallsNone :
        (c : Settings Pool) (e : GenericCacheEntry) (v : Value)
        → CallsNone (Reads.open_payload k (counted s) c e v) (Reads.open_payload k s c e v)
    open_payload-CallsNone c e (bytes b) =
        lifted-CallsNone s (decrypt_entry k c b) (Reads.opened k s e)
    open_payload-CallsNone c e v = throw-CallsNone

    open_entry-CallsNone :
        (c : Settings Pool) (v : Value)
        → CallsNone (Reads.open_entry k (counted s) c v) (Reads.open_entry k s c v)
    open_entry-CallsNone c (entry d a x) = open_payload-CallsNone c _ d
    open_entry-CallsNone c v = throw-CallsNone

    read_entry-CallsNone :
        (c : Settings Pool) (initial : Value) (g : Got)
        → CallsNone (Reads.read_entry k (counted s) c initial g) (Reads.read_entry k s c initial g)
    unfolding Reads.read_entry
    read_entry-CallsNone c initial g =
        by_error s g.error _ _ _ _ (λ e. pure-CallsNone (missed g))
          (if-CallsNone s c.encrypt_data _ _ _ _ (open_entry-CallsNone c (pointee initial g))
            (pure-CallsNone g))

    get-CallsOnce :
        (c : GenericCache Pool) (key : Bytes) (t : Target) (initial : Value)
        → CallsOnce (Reads.get k (counted s) c key t initial) (Reads.get k s c key t initial)
    unfolding Reads.get
    get-CallsOnce c key t initial =
        by_cache s ((settings c).cache) _ _ _ _
          (CallsNone-CallsOnce _ _ (pure-CallsNone (failed no_cache)))
          (λ p.
            by_request (request t) _ _ _ _ _ _ _ _
              (asserting-CallsOnce (s.is_store p) _ _ (one_call s (s.get p key t) missed))
              (asserting-CallsOnce (s.is_store p) _ _ (
                CallsOnce-then (counting (s.get p key t)) (s.get p key t) _ _
                  (counting-CallsOnce (s.get p key t)) (read_entry-CallsNone (settings c) initial)))
              (asserting-CallsOnce (s.is_store p) _ _ (
                one_call s (s.get p key (pointer (other_type (codes "interface {}"))))
                  (λ g. record { written = none; error = (missed g).error })))
              (CallsNone-CallsOnce _ _ (pure-CallsNone (failed not_support))))

    exists-CallsOnce :
        (c : GenericCache Pool) (key : Bytes)
        → CallsOnce (Reads.exists k (counted s) c key) (Reads.exists k s c key)
    unfolding Reads.exists
    exists-CallsOnce (with_read_cache c r) key = exists-CallsOnce r key
    exists-CallsOnce (alone c) key =
        by_cache s c.cache _ _ _ _ (CallsNone-CallsOnce _ _ (pure-CallsNone _)) (λ p.
          CallsOnce-then (Reads.get k (counted s) (alone c) key (pointer entry_type) zero_entry)
            (Reads.get k s (alone c) key (pointer entry_type) zero_entry) _ _
            (get-CallsOnce (alone c) key (pointer entry_type) zero_entry)
            (λ g. pure-CallsNone (found_of g)))

    perform-CallsOnce :
        (c : GenericCache Pool) (m : Method)
        → CallsOnce (perform k (counted s) c m) (perform k s c m)
    unfolding perform Writes.add_existing_entry Writes.add Writes.replace Writes.delete
        Writes.increment Writes.decrement Writes.redis_increment_atomic
        Writes.redis_increment_check_set Writes.redis_expire_at Writes.redis_get_expires_in
        Writes.flush
    perform-CallsOnce c (Method.add_existing_entry key e expires_at now) =
        returning-CallsOnce s Reply.error _ _ (
          by_cache s ((settings c).cache) _ _ _ _ (CallsNone-CallsOnce _ _ throw-CallsNone) (λ p.
            asserting-CallsOnce (s.is_store p) _ _
              (counting-CallsOnce (s.set p key (of_entry e) _))))
    perform-CallsOnce c (Method.add key v exp) = returning-CallsOnce s Reply.error _ _ (
        with_store-CallsOnce s (some no_cache) s.is_store ((settings c).cache) _ _
          (λ p. counting-CallsOnce (s.add p key v _)))
    perform-CallsOnce c (Method.replace key v exp) = returning-CallsOnce s Reply.error _ _ (
        with_store-CallsOnce s (some no_cache) s.is_store ((settings c).cache) _ _
          (λ p. counting-CallsOnce (s.replace p key v _)))
    perform-CallsOnce c (Method.set key v exp now) =
        returning-CallsOnce s Reply.error _ _ (set-CallsOnce c key v exp now)
    perform-CallsOnce c (Method.delete key) = returning-CallsOnce s Reply.error _ _ (
        with_store-CallsOnce s (some no_cache) s.is_store ((settings c).cache) _ _
          (λ p. one_call s (s.delete p key) (Writes.as_miss s)))
    perform-CallsOnce c (Method.exists key) =
        returning-CallsOnce s Reply.found _ _ (exists-CallsOnce c key)
    perform-CallsOnce c (Method.increment key n) =
        returning-CallsOnce s Reply.count _ _
          (counting_op-CallsOnce s s.is_store s.increment c key n)
    perform-CallsOnce c (Method.decrement key n) =
        returning-CallsOnce s Reply.count _ _
          (counting_op-CallsOnce s s.is_store s.decrement c key n)
    perform-CallsOnce c (Method.redis_increment_atomic key n) =
        returning-CallsOnce s Reply.count _ _
          (counting_op-CallsOnce s s.is_redis s.increment_atomic c key n)
    perform-CallsOnce c (Method.redis_increment_check_set key n) =
        returning-CallsOnce s Reply.count _ _
          (counting_op-CallsOnce s s.is_redis s.increment_check_set c key n)
    perform-CallsOnce c (Method.redis_expire_at key epoc) = returning-CallsOnce s Reply.error _ _ (
        with_store-CallsOnce s (some no_cache) s.is_redis ((settings c).cache) _ _
          (λ p. counting-CallsOnce (s.expire_at p key epoc)))
    perform-CallsOnce c (Method.redis_get_expires_in key) =
        returning-CallsOnce s Reply.expires_in _ _ (
          with_store-CallsOnce s (pos 0, some no_cache) s.is_redis ((settings c).cache) _ _
            (λ p. one_call s (s.get_expires_in p key) (Writes.ttl_of s)))
    perform-CallsOnce c Method.flush = returning-CallsOnce s Reply.error _ _ (
        with_store-CallsOnce s (some no_cache) s.is_store ((settings c).cache) _ _
          (λ p. one_call s (s.flush p) (λ e. none)))
    perform-CallsOnce c (Method.get key t initial) =
        returning-CallsOnce s Reply.got _ _ (get-CallsOnce c key t initial)

    -- On any store a method makes one call of the store, or none, and then what the stores hold is
    -- as it was: with the calls counted it ends as without the count, with the same result or
    -- panic, and the same world.
    pub perform-SameEnd :
        (c : GenericCache Pool) (m : Method) (w : World) (n : ℕ)
        → SameEnd w n (perform k (counted s) c m (w, n)) (perform k s c m w)
    perform-SameEnd c m = (perform-CallsOnce c m).ends
