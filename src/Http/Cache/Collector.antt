-- ===== src/Http/Cache/Collector.antt =====
-- The thread of the cache's collector, from the constructor of HttpCache to its destructor. A round of
-- `GarbageCollection` holds `cleanup_mutex` from the end of its wait on, and the destructor sets the flag
-- under that mutex, so both are single steps; a wait of the collector ends by its ten seconds or by the
-- notification, which comes as a step at any time.
pub mod Destructor
use datazoo_oauth.Base.{
  ℕ, ◌≡◌, ◌≢◌, refl, sym, subst, ◌⊎◌, inl, inr, Bool, true, false, Option, none, some, List, [],
  ◌∷◌, Bytes, if◌then◌else◌,
}
use datazoo_oauth.Http.Message.{HttpRequest, HttpResponse}
use datazoo_oauth.Http.Cache.{HttpCache, emplace_cache_response, collect_garbage}

pub data Thread : Type 0 where
  collecting finished : Thread

-- How far the object's life has come: before its destructor, in it, and after it.
pub data Stage : Type 0 where
  alive stopping gone : Stage

pub record CacheObject : Type 0 where
  pub cache : HttpCache
  pub should_stop : Bool
  pub cleanup_thread : Thread
  pub stage : Stage

-- The constructor starts the thread.
abbrev pub new_cache : CacheObject
new_cache = record { cache = []; should_stop = false; cleanup_thread = collecting; stage = alive }

-- What happens: the wait of the collector ends, a response is stored, the destructor sets the flag and
-- notifies, and its `join` returns. A store does not read the flag: another thread may store while the
-- destructor waits.
pub data Event : Type 0 where
  wakes : ℕ → Event
  stores : HttpRequest → HttpResponse → ℕ → ℕ → Event
  stops : Event
  joins : Event

-- The part of a round of `GarbageCollection` behind the wait.
round : ℕ → CacheObject → CacheObject
round now s =
    if s.should_stop
    then record s { cleanup_thread = finished }
    else record s { cache = collect_garbage now s.cache }

wake : ℕ → CacheObject → Thread → Option CacheObject
unfolding round
wake now s collecting = some (round now s)
wake now s finished = none

-- A destructor runs once.
when_alive : Stage → CacheObject → Option CacheObject
when_alive alive s = some s
when_alive stopping s = none
when_alive gone s = none

-- The members are there until the destructor has returned.
until_gone : Stage → CacheObject → Option CacheObject
until_gone alive s = some s
until_gone stopping s = some s
until_gone gone s = none

-- `join` waits for the thread.
join : CacheObject → Stage → Thread → Option CacheObject
join s stopping finished = some (record s { stage = gone })
join s stopping collecting = none
join s alive thread = none
join s gone thread = none

-- `none` where the event cannot happen.
unfoldable pub step : (Bytes → ℕ) → Event → CacheObject → Option CacheObject
unfolding wake when_alive until_gone join
step hash (wakes now) s = wake now s s.cleanup_thread
step hash (stores r response now duration) s =
    until_gone s.stage
      (record s { cache = emplace_cache_response hash s.cache r response now duration })
step hash stops s = when_alive s.stage (record s { should_stop = true; stage = stopping })
step hash joins s = join s s.stage s.cleanup_thread

unfoldable pub run : (Bytes → ℕ) → List Event → CacheObject → Option CacheObject
run hash [] s = some s
run hash (e ∷ es) s = elim (step hash e s) [ none ↦ none | some t ↦ run hash es t ]
