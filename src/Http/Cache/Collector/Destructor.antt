-- ===== src/Http/Cache/Collector/Destructor.antt =====
-- The destructor of HttpCache ends, and the collector with it.
use datazoo_oauth.Base.{
  ℕ, ◌≡◌, ◌≢◌, refl, sym, subst, ◌⊎◌, inl, inr, Bool, true, false, Option, none, some, List, [],
  ◌∷◌, Bytes,
}
use datazoo_oauth.Http.Cache.{HttpCache, emplace_cache_response}
use datazoo_oauth.Http.Cache.Collector.{
  Thread, collecting, finished, Stage, alive, stopping, gone, CacheObject, new_cache, Event, wakes,
  stores, stops, joins, round, wake, when_alive, until_gone, join, step, run,
}

-- The flag and the thread at each stage.
abbrev pub IsSound : Stage → Bool → Thread → Type 0
IsSound alive stop thread = (stop ≡ false) × (thread ≡ collecting)
IsSound stopping stop thread = stop ≡ true
IsSound gone stop thread = (stop ≡ true) × (thread ≡ finished)

abbrev Option-all : (CacheObject → Type 0) → Option CacheObject → Type 0
Option-all P none = Unit
Option-all P (some t) = P t

abbrev Sound : CacheObject → Type 0
Sound s = IsSound s.stage s.should_stop s.cleanup_thread

abbrev object : HttpCache → Bool → Thread → Stage → CacheObject
object c b h g = record { cache = c; should_stop = b; cleanup_thread = h; stage = g }

wake-Sound :
    (now : ℕ) (c : HttpCache) (b : Bool) (h : Thread) (g : Stage) (t : CacheObject)
    → IsSound g b h
    → wake now (object c b h g) h ≡ some t
    → Sound t
unfolding wake round
wake-Sound now c b finished g t sound e = absurd (cc)
wake-Sound now c true collecting alive t sound e = absurd (cc (sound.0))
wake-Sound now c false collecting alive t sound e = subst (Option-all Sound) e sound
wake-Sound now c true collecting stopping t sound e = subst (Option-all Sound) e sound
wake-Sound now c false collecting stopping t sound e = absurd (cc)
wake-Sound now c b collecting gone t sound e = absurd (cc (sound.1))

alive-Sound :
    (c : HttpCache) (b : Bool) (h : Thread) (g : Stage) (s t : CacheObject)
    → IsSound g b h
    → (IsSound g b h → IsSound alive b h → Sound s)
    → when_alive g s ≡ some t
    → Sound t
unfolding when_alive
alive-Sound c b h alive s t sound next e = subst (Option-all Sound) e (next sound sound)
alive-Sound c b h stopping s t sound next e = absurd (cc)
alive-Sound c b h gone s t sound next e = absurd (cc)

store-Sound :
    (c c' : HttpCache) (b : Bool) (h : Thread) (g : Stage) (t : CacheObject)
    → IsSound g b h
    → until_gone g (object c' b h g) ≡ some t
    → Sound t
unfolding until_gone
store-Sound c c' b h alive t sound e = subst (Option-all Sound) e sound
store-Sound c c' b h stopping t sound e = subst (Option-all Sound) e sound
store-Sound c c' b h gone t sound e = absurd (cc)

join-Sound :
    (c : HttpCache) (b : Bool) (h : Thread) (g : Stage) (t : CacheObject)
    → IsSound g b h
    → join (object c b h g) g h ≡ some t
    → Sound t
unfolding join
join-Sound c b finished stopping t sound e = subst (Option-all Sound) e (sound, refl)
join-Sound c b collecting stopping t sound e = absurd (cc)
join-Sound c b h alive t sound e = absurd (cc)
join-Sound c b h gone t sound e = absurd (cc)

step-Sound :
    (hash : Bytes → ℕ) (e : Event) (s t : CacheObject) → Sound s → step hash e s ≡ some t → Sound t
unfolding step
step-Sound hash (wakes now) s t sound e =
    wake-Sound now s.cache s.should_stop s.cleanup_thread s.stage t sound e
step-Sound hash (stores r response now duration) s t sound e =
    store-Sound s.cache _ s.should_stop s.cleanup_thread s.stage t sound e
step-Sound hash stops s t sound e =
    alive-Sound s.cache s.should_stop s.cleanup_thread s.stage _ t sound (λ _ _. refl) e
step-Sound hash joins s t sound e =
    join-Sound s.cache s.should_stop s.cleanup_thread s.stage t sound e

run-Sound :
    (hash : Bytes → ℕ) (es : List Event) (s t : CacheObject)
    → Sound s
    → run hash es s ≡ some t
    → Sound t
unfolding run
run-Sound hash [] s t sound e = subst (Option-all Sound) e sound
run-Sound hash (a ∷ es) s t sound e =
    by_step (step hash a s)
      (λ u stepped. run-Sound hash es u t (step-Sound hash a s u sound stepped)) refl e
  where
    by_step :
        (o : Option CacheObject)
        → ((u : CacheObject) → step hash a s ≡ some u → run hash es u ≡ some t → Sound t)
        → step hash a s ≡ o
        → (elim o as (λ _. Option CacheObject) [ none ↦ none | some u ↦ run hash es u ]) ≡ some t
        → Sound t
    by_step none rec stuck h = absurd (cc)
    by_step (some u) rec stepped h = rec u stepped h

-- The destructor's `join`, now or after one more round.
abbrev pub JoinEnds : (Bytes → ℕ) → ℕ → CacheObject → Type 0
JoinEnds hash now s =
    (step hash joins s ≡ some (record s { stage = gone }))
    ⊎ (run hash (wakes now ∷ joins ∷ []) s
        ≡ some (record s { cleanup_thread = finished; stage = gone }))

object-JoinEnds :
    (hash : Bytes → ℕ) (now : ℕ) (c : HttpCache) (b : Bool) (h : Thread)
    → b ≡ true
    → JoinEnds hash now (object c b h stopping)
unfolding run step wake round join
object-JoinEnds hash now c b finished stop = inl refl
object-JoinEnds hash now c true collecting stop = inr refl
object-JoinEnds hash now c false collecting stop = absurd (cc)

-- A store, in a cache that is `c` before it and `d` after it.
abbrev pub IsStore : (Bytes → ℕ) → Event → HttpCache → HttpCache → Type 0
IsStore hash (stores r response now duration) c d =
    d ≡ emplace_cache_response hash c r response now duration
IsStore hash _ c d = ⊥

-- Past the start of the destructor, only a store changes the cache.
object_kept :
    (hash : Bytes → ℕ) (a : Event) (c : HttpCache) (b : Bool) (h : Thread) (g : Stage)
    (t : CacheObject)
    → IsSound g b h
    → g ≢ alive
    → step hash a (object c b h g) ≡ some t
    → (t.cache ≡ c) ⊎ IsStore hash a c t.cache
unfolding step wake round when_alive until_gone join
object_kept hash a c b h alive t sound past e = absurd (past refl)
object_kept hash (wakes now) c b finished g t sound past e = absurd (cc)
object_kept hash (wakes now) c true collecting g t sound past e =
    inl (subst (Option-all (λ u. u.cache ≡ c)) e refl)
object_kept hash (wakes now) c false collecting stopping t sound past e = absurd (cc)
object_kept hash (wakes now) c false collecting gone t sound past e = absurd (cc (sound.1))
object_kept hash (stores r response now duration) c b h stopping t sound past e = inr (
    subst (Option-all (λ u. u.cache ≡ emplace_cache_response hash c r response now duration)) e
      refl)
object_kept hash (stores r response now duration) c b h gone t sound past e = absurd (cc)
object_kept hash stops c b h stopping t sound past e = absurd (cc)
object_kept hash stops c b h gone t sound past e = absurd (cc)
object_kept hash joins c b finished stopping t sound past e =
    inl (subst (Option-all (λ u. u.cache ≡ c)) e refl)
object_kept hash joins c b collecting stopping t sound past e = absurd (cc)
object_kept hash joins c b h gone t sound past e = absurd (cc)

stopping_should_stop : (s : CacheObject) → Sound s → s.stage ≡ stopping → s.should_stop ≡ true
stopping_should_stop s sound e = subst (λ g. IsSound g s.should_stop s.cleanup_thread) e sound

-- The destructor ends, and the collector collects nothing while it runs. In every state that a run of
-- the object can reach, in any order of rounds, stores and its destruction: once the destructor has set
-- the flag, its `join` returns at once or after one more round of the collector, which changes no
-- entry; stores may go on meanwhile, and from the flag on, only a store changes the cache; after the
-- `join` the thread has finished.
pub destructor_ends :
    (hash : Bytes → ℕ) (es : List Event) (s : CacheObject)
    → run hash es new_cache ≡ some s
    → (s.stage ≡ stopping → (now : ℕ) → JoinEnds hash now s)
      × (s.stage ≢ alive
          → (a : Event) (t : CacheObject) → step hash a s ≡ some t
          → (t.cache ≡ s.cache) ⊎ IsStore hash a s.cache t.cache)
      × (s.stage ≡ gone → s.cleanup_thread ≡ finished)
destructor_ends hash es s reached =
    let sound = run-Sound hash es new_cache s (refl, refl) reached in
    (
      λ e now.
          subst (λ g. JoinEnds hash now (record s { stage = g })) (sym e)
            (object-JoinEnds hash now s.cache s.should_stop s.cleanup_thread
              (stopping_should_stop s sound e)),
      λ past a t stepped.
          object_kept hash a s.cache s.should_stop s.cleanup_thread s.stage t sound past stepped,
      λ e. (subst (λ g. IsSound g s.should_stop s.cleanup_thread) e sound).1,
    )
