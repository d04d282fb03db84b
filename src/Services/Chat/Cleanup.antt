-- ===== src/Services/Chat/Cleanup.antt =====
-- cleanupInactiveSubscribers of internal/services/chat_service.go: what one tick does. It takes no lock,
-- so other goroutines may come in between; Cleanup/Alone is about a tick that is left alone, and
-- Cleanup/Race about one that is not.
pub mod Alone
pub mod Expiry
pub mod Tick
pub mod Race
use based_backend.Prelude.{
  ℕ, List, [], ◌∷◌, ◌++◌, Bool, not, Option, none, some, ◌==◌, if◌then◌else◌,
}
use based_backend.Prelude.Int.{leb_sum}
use based_backend.Types.{Bytes, Time}
use based_backend.Services.Chat.Hub.{
  Subscriber, Hub, Step, ends, then_do, close_channels, store_or_delete,
}

-- now.Sub(sub.createdAt) < 10*time.Minute
unfoldable pub is_active : Time → Subscriber → Bool
is_active now s = not (leb_sum 600000000000 s.created_at.nanoseconds now.nanoseconds)

-- The loop over subs, with activeSubscribers, and the Delete or Store behind it.
pub sweep : Time → Bytes → List ℕ → List ℕ → Hub → Step
sweep now key [] active h = ends (store_or_delete key active h)
sweep now key (p ∷ ps) active h =
    if is_active now (h.heap p)
    then sweep now key ps (active ++ p ∷ []) h
    else then_do (close_channels p h) (sweep now key ps active)

-- What Range calls for a key, with the slice that it has loaded: the elements that the slice's array
-- holds when the loop reads them. They are those of the map, unless a removal comes in between.
pub sweep_loaded : Time → Bytes → Option (List ℕ) → Hub → Step
sweep_loaded now key none h = ends h
sweep_loaded now key (some subs) h = sweep now key subs [] h

-- append(subs[:i], subs[i+1:]...) in removeSubscriber moves the elements behind the removed one to the
-- left, in the array that it shares with every slice loaded before. Such a slice keeps its length, so it
-- ends with the last element twice, or still holds the removed one if that was the last.
unfoldable pub moved_left : ℕ → List ℕ → List ℕ
moved_left p [] = p ∷ []
moved_left p (q ∷ qs) = q ∷ moved_left q qs

unfoldable pub overwritten : ℕ → List ℕ → List ℕ
overwritten p [] = []
overwritten p (q ∷ qs) = if q == p then moved_left q qs else q ∷ overwritten p qs

-- One tick. Range visits the keys in some order.
pub cleanup_inactive_subscribers : Time → List Bytes → Hub → Step
cleanup_inactive_subscribers now [] h = ends h
cleanup_inactive_subscribers now (key ∷ keys) h =
    then_do (sweep_loaded now key (h.subscribers key) h) (cleanup_inactive_subscribers now keys)
