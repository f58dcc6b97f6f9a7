-- ===== src/Pipe/Fifo.antt =====
-- A pipe is a queue: whatever the calls and their interleaving, the bytes read so far followed by
-- the bytes in the ring are the bytes written so far.
use tp2_so.Prelude.{
  ℕ, zero, suc, ◌≡◌, ◌∙◌, refl, ap, sym, Bool, Bool-cases, inl, inr, ◌&&◌, append_assoc, append-nil,
  List, [], ◌∷◌, ◌++◌, not, ◌||◌, length,
}
use tp2_so.Pipe.{
  Pipe, pipesize, put, pop, front, is_full, is_empty, new_pipe, pipewrite, piperead, pipeclose,
  drain,
}
use tp2_so.Pipe.Ring.{
  IsPipe, contents, put-IsPipe, contents-put, pop-IsPipe, contents-pop, contents-empty,
  new_pipe-IsPipe, pipeclose-IsPipe, contents-pipeclose,
}

-- Writing.
pub pipewrite-queues :
    (killed : Bool) (cs : List ℕ) (p : Pipe)
    → IsPipe p
    → let w = pipewrite killed cs p in
      IsPipe w.pipe × contents w.pipe ≡ contents p ++ w.sent × w.sent ++ w.left ≡ cs
unfolding pipewrite
pipewrite-queues killed [] p wf = (wf, sym (append-nil _), refl)
pipewrite-queues killed (c ∷ cs) p wf = elim (Bool-cases (is_full p)) [
  | inl e ↦ elim (Bool-cases (not p.readopen || killed)) [
    | inl e1 ↦ rw (e, e1) (wf, sym (append-nil _), refl)
    | inr e1 ↦ rw (e, e1) (wf, sym (append-nil _), refl)
  ]
  | inr e ↦
      let (wf1, queued, whole) = pipewrite-queues killed cs (put c p) (put-IsPipe c p wf e) in
      rw (e) (
        wf1,
        queued
            ∙ (ap (λ xs. xs ++ (pipewrite killed cs (put c p)).sent) (contents-put c p wf e)
                ∙ append_assoc (contents p) (c ∷ []) _),
        ap (λ xs. c ∷ xs) whole,
      )
]

-- Reading.
drain-queues :
    (n : ℕ) (p : Pipe)
    → IsPipe p
    → let d = drain n p in IsPipe d.1 × contents p ≡ d.0 ++ contents d.1
unfolding drain
drain-queues zero p wf = (wf, refl)
drain-queues (suc n) p wf = elim (Bool-cases (is_empty p)) [
  | inl e ↦ rw (e) (wf, refl)
  | inr e ↦
      let (wf1, queued) = drain-queues n (pop p) (pop-IsPipe p wf e) in
      rw (e) (wf1, contents-pop p wf e ∙ ap (λ xs. front p ∷ xs) queued)
]

-- `Traffic p sent received`: the pipe after some calls in some order, the bytes that the writers
-- have put in, and those that the readers have got.
pub data Traffic (p0 : Pipe) : List ℕ → List ℕ → Pipe → Type 0 where
  opened : Traffic p0 [] [] p0
  writes :
      (sent received : List ℕ) (p : Pipe) (killed : Bool) (cs : List ℕ)
      → Traffic p0 sent received p
      → Traffic p0 (sent ++ (pipewrite killed cs p).sent) received (pipewrite killed cs p).pipe
  reads :
      (sent received : List ℕ) (p : Pipe) (killed : Bool) (n : ℕ)
      → Traffic p0 sent received p
      → Traffic p0 sent (received ++ (piperead killed n p).bytes) (piperead killed n p).pipe
  closes :
      (sent received : List ℕ) (p : Pipe) (writable : Bool)
      → Traffic p0 sent received p
      → Traffic p0 sent received (pipeclose writable p).pipe

piperead-queues :
    (killed : Bool) (n : ℕ) (p : Pipe)
    → IsPipe p
    → let r = piperead killed n p in IsPipe r.pipe × contents p ≡ r.bytes ++ contents r.pipe
unfolding piperead
piperead-queues killed n p wf = elim (Bool-cases (is_empty p && p.writeopen)) [
  | inl e ↦ rw (e) (wf, refl)
  | inr e ↦ rw (e) (drain-queues n p wf)
]

-- In a pipe that pipealloc made on a page with PIPESIZE bytes for the ring, after any sequence of
-- pieces of pipewrite, piperead and pipeclose, the bytes received followed by the bytes in the
-- ring are the bytes sent, and the ring's invariant holds (at most PIPESIZE bytes are in it).
pub Traffic-fifo :
    (junk sent received : List ℕ) (p : Pipe)
    → length junk ≡ pipesize
    → Traffic (new_pipe junk) sent received p
    → IsPipe p × received ++ contents p ≡ sent
Traffic-fifo junk sent received p full_page opened = (
  new_pipe-IsPipe junk full_page,
  contents-empty (new_pipe junk) (new_pipe-IsPipe junk full_page) refl,
)
Traffic-fifo junk sent received p full_page (writes s r q killed cs before) =
    let (wf, ih) = Traffic-fifo junk s r q full_page before in
    let (wf1, queued, whole) = pipewrite-queues killed cs q wf in
    (
      wf1,
      ap (λ xs. r ++ xs) queued
          ∙ (sym (append_assoc r (contents q) _)
              ∙ ap (λ xs. xs ++ (pipewrite killed cs q).sent) ih),
    )
Traffic-fifo junk sent received p full_page (reads s r q killed n before) =
    let (wf, ih) = Traffic-fifo junk s r q full_page before in
    let (wf1, queued) = piperead-queues killed n q wf in
    (wf1, append_assoc r (piperead killed n q).bytes _ ∙ (ap (λ xs. r ++ xs) (sym queued) ∙ ih))
Traffic-fifo junk sent received p full_page (closes s r q writable before) =
    let (wf, ih) = Traffic-fifo junk s r q full_page before in
    (pipeclose-IsPipe writable q wf, ap (λ xs. r ++ xs) (contents-pipeclose writable q) ∙ ih)
