-- ===== src/Manager/Creates.antt =====
-- The steps of a Create call, and the end of a session, keep the invariant of a Manager's world.
use homebrain.Prelude.{
  ℕ, ◌<◌, true, false, Option, none, some, ◌≡◌, inl, inr, refl, arith, ◌==◌, Option-cases,
  Bool-cases,
}
use homebrain.Text.{Text, text_eq_iff, text_eq_refl}
use homebrain.Manager.Table.{lookup, lookup-cons, lookup-delete}
use homebrain.Manager.Invariant.{IsSound, nobody, close_session-IsSound}
use homebrain.Manager.{
  Manager, Stage, none_yet, calling, holding, settled, World, update, holds, remove_entry,
  close_session, begin_step, made_step, not_made_step, attach_step, reserve, attach,
}

pub holds-some : (o : Option ℕ) (k : ℕ) → holds o k ≡ true → o ≡ some k
holds-some none k h = cc
holds-some (some j) k h = ground arith

module _ {w : World} (h : IsSound nobody w) where
  pub begin-IsSound : (id : Text) → IsSound nobody (begin_step id w)
  unfolding begin_step reserve
  begin-IsSound id = elim (Option-cases (lookup id w.manager.table)) [
    | inr (entry, e) ↦ rw (e, begin_step, reserve) h
    | inl e ↦
        rw (e, begin_step, reserve)
          (record {
            keyed = λ k entry m. ground (
              arith,
              h.keyed k entry,
              lookup-cons k id w.manager.next_entry w.manager.table,
              text_eq_iff id k,
            );
            owned = λ entry s m. ground (arith, h.owned entry s);
            held = λ entry s m. ground (arith, h.held entry s);
            late = λ entry m. ground (arith, h.late entry);
            past = λ s m. ground (arith, h.past s m, h.late (w.owner s));
            single = h.single;
            safe = λ s m. ground (
              arith,
              h.safe s m,
              h.past s m,
              h.late (w.owner s),
              lookup-cons (w.id_of (w.owner s)) id w.manager.next_entry w.manager.table,
              text_eq_iff id (w.id_of (w.owner s)),
            );
          })
  ]

  pub made-IsSound : (entry : ℕ) → IsSound nobody (made_step (w.stage entry) entry w)
  made-IsSound entry = go (w.stage entry) refl
    where
      go : (stage : Stage) → w.stage entry ≡ stage → IsSound nobody (made_step stage entry w)
      go none_yet e = unfold made_step in h
      go (holding s) e = unfold made_step in h
      go settled e = unfold made_step in h
      go calling e =
          unfold made_step in
          record {
            keyed = h.keyed;
            owned = λ k s m. ground (arith, h.owned k s);
            held = λ k s m. ground (arith, h.held k s);
            late = λ k m. ground (arith, h.late k);
            past = λ s m. ground (arith, h.past s);
            single = λ s t m n. ground (arith, h.single s t, h.past s, h.past t);
            safe = λ s m. ground (arith, h.safe s, h.past s);
          }

  pub not_made-IsSound : (entry : ℕ) → IsSound nobody (not_made_step (w.stage entry) entry w)
  not_made-IsSound entry = go (w.stage entry) refl
    where
      go : (stage : Stage) → w.stage entry ≡ stage → IsSound nobody (not_made_step stage entry w)
      go none_yet e = unfold not_made_step in h
      go (holding s) e = unfold not_made_step in h
      go settled e = unfold not_made_step in h
      go calling e =
          unfold not_made_step remove_entry in
          record {
            keyed = λ id k m.
                ground (arith, h.keyed id k, lookup-delete id (w.id_of entry) w.manager.table);
            owned = λ k s m. ground (arith, h.owned k s);
            held = λ k s m. ground (arith, h.held k s);
            late = λ k m. ground (arith, h.late k);
            past = λ s m. ground (arith, h.past s);
            single = h.single;
            safe = λ s m. ground (
              arith,
              h.safe s,
              h.past s,
              lookup-delete (w.id_of (w.owner s)) (w.id_of entry) w.manager.table,
              text_eq_iff (w.id_of entry) (w.id_of (w.owner s)),
            );
          }

  pub ended-IsSound : (s : ℕ) → s < w.next_session → IsSound nobody (close_session s w)
  ended-IsSound s k = close_session-IsSound h s nobody k (λ t e. ground arith)

  pub attach-IsSound : (entry : ℕ) → IsSound nobody (attach_step (w.stage entry) entry w)
  attach-IsSound entry = go (w.stage entry) refl
    where
      settle : Manager → World
      settle m = record w { manager = m; stage = update w.stage entry settled }

      attach_found :
          (s : ℕ)
          → holds (lookup (w.id_of entry) w.manager.table) entry ≡ true
          → attach_step (holding s) entry w
            ≡ settle (record w.manager { slot = update w.manager.slot entry (some s) })
      attach_found s f = unfold attach_step attach in rw f

      attach_lost :
          (s : ℕ)
          → holds (lookup (w.id_of entry) w.manager.table) entry ≡ false
          → attach_step (holding s) entry w ≡ close_session s (settle w.manager)
      attach_lost s f = unfold attach_step attach in rw f

      kept :
          (s : ℕ)
          → w.stage entry ≡ holding s
          → lookup (w.id_of entry) w.manager.table ≡ some entry
          → IsSound nobody
              (settle (record w.manager { slot = update w.manager.slot entry (some s) }))
      kept s e f = record {
        keyed = h.keyed;
        owned = λ k t m. ground (arith, h.owned k t, h.held entry s);
        held = λ k t m. ground (arith, h.held k t);
        late = λ k m. ground (arith, h.late k);
        past = λ t m. ground (arith, h.past t);
        single = h.single;
        safe = λ t m.
            ground (arith, h.safe t m, h.held entry s, h.single s t, text_eq_refl (w.id_of entry));
      }

      dropped : (s : ℕ) → w.stage entry ≡ holding s → IsSound (λ t. t == s) (settle w.manager)
      dropped s e = record {
        keyed = h.keyed;
        owned = λ k t m. ground (arith, h.owned k t);
        held = λ k t m. ground (arith, h.held k t);
        late = λ k m. ground (arith, h.late k);
        past = λ t m. ground (arith, h.past t);
        single = h.single;
        safe = λ t m. ground (arith, h.safe t m, h.held entry s, h.single s t);
      }

      go : (stage : Stage) → w.stage entry ≡ stage → IsSound nobody (attach_step stage entry w)
      go none_yet e = unfold attach_step in h
      go calling e = unfold attach_step in h
      go settled e = unfold attach_step in h
      go (holding s) e = elim (Bool-cases (holds (lookup (w.id_of entry) w.manager.table) entry)) [
        | inl f ↦ rw (attach_found s f) (kept s e (holds-some _ entry f))
        | inr f ↦ rw (attach_lost s f) (
            close_session-IsSound (dropped s e) s nobody (h.held entry s e).0 (λ t m. ground arith))
      ]
