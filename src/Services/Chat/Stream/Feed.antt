-- ===== src/Services/Chat/Stream/Feed.antt =====
-- What a stream of internal/services/chat_service.go promises: a queue, read from its front.
use based_backend.Prelude.{◌≡◌, sym, ap, ◌∙◌, List, [], ◌∷◌, ◌++◌}
use based_backend.Proto.Messages.{Message}
use mathlib.Core.List.{append_assoc, append-nil}

pub record Feed : Type 0 where
  pub read : List Message
  pub queue : List Message

-- The index in the middle is what comes in.
pub data Feeds : Feed → List Message → Feed → Type 0 where
  rests : (f : Feed) → Feeds f [] f
  delivers :
      (f g : Feed) (ms : List Message) (m : Message) (queue : List Message)
      → Feeds f ms g
      → g.queue ≡ m ∷ queue
      → Feeds f ms (record { read = g.read ++ m ∷ []; queue = queue })
  accepts :
      (f g : Feed) (ms new : List Message)
      → Feeds f ms g
      → Feeds f (ms ++ new) (record g { queue = g.queue ++ new })

-- Nothing is lost, doubled or moved: what has been read, with the queue behind it, is what was read
-- and waited before, with what has come in behind it.
pub Feeds-in_order :
    (f g : Feed) (ms : List Message) → Feeds f ms g → g.read ++ g.queue ≡ f.read ++ f.queue ++ ms
Feeds-in_order f g ms (rests _) = sym (append-nil _)
Feeds-in_order f _ ms (delivers _ g _ m queue r e) =
    append_assoc g.read (m ∷ []) queue ∙ ap (λ x. g.read ++ x) (sym e) ∙ Feeds-in_order f g ms r
Feeds-in_order f _ _ (accepts _ g ms new r) =
    sym (append_assoc g.read g.queue new)
    ∙ ap (λ x. x ++ new) (Feeds-in_order f g ms r)
    ∙ append_assoc (f.read ++ f.queue) ms new
