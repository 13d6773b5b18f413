-- ===== src/LogBridge/Buffer.antt =====
-- The buffer holds the newest lines.
use lxmf_react_native_rust.Prelude.{
  ℕ, zero, suc, ◌+◌, ◌-◌, ◌≤◌, ◌≡◌, refl, sym, ap, ◌∙◌, inl, inr, Bool, true, false, List, [], ◌∷◌,
  ◌++◌, append-nil, append_assoc, arith, leb, if◌then◌else◌, Bool-cases, length, drop,
  length-append, length-drop,
}
use lxmf_react_native_rust.LogBridge.{
  log_buffer_capacity, QueuedLog, LogBridge, level_to_u32, enabled, render, push_log, Record, log,
}

module _ {ℓ} {A : Type ℓ} where
  -- The last `n` entries.
  abbrev pub newest : ℕ → List A → List A
  newest n xs = drop (length xs - n) xs

  drop-append : (n : ℕ) (xs ys : List A) → n ≤ length xs → drop n xs ++ ys ≡ drop n (xs ++ ys)
  drop-append zero xs ys h = refl
  drop-append (suc n) [] ys h = elim h [ ]
  drop-append (suc n) (x ∷ xs) ys h = drop-append n xs ys (omega (arith, h))

  drop-nil : (n : ℕ) → ◌≡◌ {A = List A} (drop n []) []
  drop-nil zero = refl
  drop-nil (suc n) = refl

  drop-drop : (n m : ℕ) (xs : List A) → drop n (drop m xs) ≡ drop (m + n) xs
  drop-drop n zero xs = ap (λ k. drop k xs) {y = 0 + n} (omega arith)
  drop-drop n (suc m) [] = drop-nil n ∙ sym (drop-nil (suc m + n))
  drop-drop n (suc m) (x ∷ xs) =
      drop-drop n m xs ∙ ap (λ k. drop k (x ∷ xs)) {x = suc (m + n)} {y = suc m + n} (omega arith)

  newest-newest : (n : ℕ) (xs ys : List A) → newest n (newest n xs ++ ys) ≡ newest n (xs ++ ys)
  newest-newest n xs ys =
      ap (λ zs. drop (length (newest n xs ++ ys) - n) zs)
        (drop-append (length xs - n) xs ys (omega arith))
      ∙ drop-drop (length (newest n xs ++ ys) - n) (length xs - n) (xs ++ ys)
      ∙ ap (λ k. drop k (xs ++ ys)) same
    where
      same : (length xs - n) + (length (newest n xs ++ ys) - n) ≡ length (xs ++ ys) - n
      same = omega (
        arith,
        length-append (newest n xs) ys,
        length-append xs ys,
        length-drop (length xs - n) xs,
      )

  newest_short : (n : ℕ) (xs : List A) → length xs ≤ n → newest n xs ≡ xs
  newest_short n xs h = ap (λ k. drop k xs) {y = 0} (omega (arith, h))

-- The line that a record becomes, if its level is enabled.
abbrev pub lines_of : LogBridge → List Record → List QueuedLog
lines_of b [] = []
lines_of b (r ∷ rs) =
    if enabled b.max_level r.level
    then record { level = level_to_u32 r.level; message = render r.target r.args } ∷ lines_of b rs
    else lines_of b rs

abbrev pub log_all : LogBridge → List Record → LogBridge
log_all b [] = b
log_all b (r ∷ rs) = log_all (log b r) rs

push_log-newest :
    (q : List QueuedLog) (e : QueuedLog)
    → length q ≤ log_buffer_capacity
    → push_log q e ≡ newest log_buffer_capacity (q ++ (e ∷ []))
unfolding push_log
push_log-newest q e h = elim (Bool-cases (leb log_buffer_capacity (length q))) [
  | inl full ↦ rw full (
      drop-append 1 q (e ∷ []) (ground arith)
      ∙ ap (λ k. drop k (q ++ (e ∷ []))) {x = 1} (ground (arith, length-append q (e ∷ []))))
  | inr room ↦ rw room (
      sym (
        newest_short log_buffer_capacity (q ++ (e ∷ []))
          (ground (arith, length-append q (e ∷ [])))))
]

length-push_log :
    (q : List QueuedLog) (e : QueuedLog)
    → length q ≤ log_buffer_capacity
    → length (push_log q e) ≤ log_buffer_capacity
unfolding push_log
length-push_log q e h =
    ground (arith, length-append q (e ∷ []), length-append (drop 1 q) (e ∷ []), length-drop 1 q)

log_on :
    (b : LogBridge) (r : Record)
    → enabled b.max_level r.level ≡ true
    → log b r ≡ record b {
      queue =
          push_log b.queue
            (record { level = level_to_u32 r.level; message = render r.target r.args });
    }
unfolding log
log_on b r h = rw h refl

log_off : (b : LogBridge) (r : Record) → enabled b.max_level r.level ≡ false → log b r ≡ b
unfolding log
log_off b r h = rw h refl

abbrev Kept : LogBridge → LogBridge → List QueuedLog → Type 0
Kept after b more =
    (after.queue ≡ newest log_buffer_capacity (b.queue ++ more))
    × (length after.queue ≤ log_buffer_capacity)

log_step :
    (r : Record) (rs : List Record) (b : LogBridge)
    → length b.queue ≤ log_buffer_capacity
    → ((c : LogBridge)
        → length c.queue ≤ log_buffer_capacity
        → Kept (log_all c rs) c (lines_of c rs))
    → (on : Bool) → enabled b.max_level r.level ≡ on
    → Kept (log_all (log b r) rs) b (lines_of b (r ∷ rs))
log_step r rs b h rec true on =
    let e : QueuedLog = record { level = level_to_u32 r.level; message = render r.target r.args } in
    let (same, bound) =
      rec (record b { queue = push_log b.queue e }) (length-push_log b.queue e h) in
    rw (log_on b r on, on)
      (
        same
            ∙ ap (λ q. newest log_buffer_capacity (q ++ lines_of b rs))
                (push_log-newest b.queue e h)
            ∙ newest-newest log_buffer_capacity (b.queue ++ (e ∷ [])) (lines_of b rs)
            ∙ ap (newest log_buffer_capacity) (append_assoc b.queue (e ∷ []) (lines_of b rs)),
        bound,
      )
log_step r rs b h rec false off = rw (log_off b r off, off) (rec b h)

-- However many records are logged from a buffer of at most 400 lines on, the buffer then holds the
-- newest 400 of its lines and of those of the enabled records, in order, and never more than 400.
pub log_all-newest :
    (rs : List Record) (b : LogBridge)
    → length b.queue ≤ log_buffer_capacity
    → ((log_all b rs).queue ≡ newest log_buffer_capacity (b.queue ++ lines_of b rs))
      × (length (log_all b rs).queue ≤ log_buffer_capacity)
log_all-newest [] b h =
    (sym (ap (newest log_buffer_capacity) (append-nil b.queue) ∙ newest_short _ b.queue h), h)
log_all-newest (r ∷ rs) b h = log_step r rs b h (log_all-newest rs) _ refl
