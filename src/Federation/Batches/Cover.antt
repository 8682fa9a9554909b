-- ===== src/Federation/Batches/Cover.antt =====
-- The batches are the events that the link carries, in their order, none lost and none twice.
use mathlib.Core.List.{append_assoc}
use zvonilka.Base.{
  zero, suc, ok, err, true, List, [], ◌∷◌, ok, err, ℤ, ◌≡◌, ◌++◌, pos, arith, ◌≤◌, Result-cases,
  inl, sym, ◌∙◌, inr, ap, length, refl, ℕ, suc, Bool-cases, ◌+◌,
}
use zvonilka.Federation.Models.{Error, conflict, Link, CompressionKind, Bytes}
use zvonilka.Federation.Params.{SaveBundleParams}
use zvonilka.Federation.LinkForm.{is_ultra_constrained}
use zvonilka.Conversation.Events.{EventEnvelope}
use zvonilka.Federation.Batches.{
  Encoding, last_sequence, marshal_federation_event_batch, grow, batches, batch_params, fits,
}

-- A batch takes one more event only where the encoding still fits.
abbrev pub IsFull : Encoding → ℤ → EventEnvelope → List EventEnvelope → List EventEnvelope → Type 0
IsFull enc max_bytes first more [] = Unit
IsFull enc max_bytes first more (e ∷ events) =
    marshal_federation_event_batch enc (first ∷ (more ++ (e ∷ []))) max_bytes ≡ err conflict

-- The bundle stands for the event `first` and those of `more`, and the events of `rest` follow.
pub record IsBatch (enc : Encoding) (max_bytes : ℤ) (first : EventEnvelope)
    (more rest : List EventEnvelope) (p : SaveBundleParams) : Type 0 where
  pub starts : p.cursor_from ≡ first.sequence
  pub ends : p.cursor_to ≡ last_sequence first more
  pub counts : p.event_count ≡ pos (length (first ∷ more))
  pub encodes :
      marshal_federation_event_batch enc (first ∷ more) max_bytes ≡ ok (p.payload, p.compression)
  pub bounded : fits p.payload max_bytes ≡ true
  pub full : IsFull enc max_bytes first more rest

-- How the events are dealt out into bundles. An event is left out only where it is too large alone
-- and the link is ultra-constrained.
pub data Cover (enc : Encoding) (link : Link)
    : List EventEnvelope → List SaveBundleParams → Type 0 where
  done : Cover enc link [] []
  skipped :
      {e : EventEnvelope} {events : List EventEnvelope} {ps : List SaveBundleParams}
      → marshal_federation_event_batch enc (e ∷ []) link.max_bundle_bytes ≡ err conflict
      → is_ultra_constrained link.delivery_class ≡ true
      → Cover enc link events ps
      → Cover enc link (e ∷ events) ps
  batch :
      {first : EventEnvelope} {more rest events : List EventEnvelope} {p : SaveBundleParams}
      {ps : List SaveBundleParams}
      → IsBatch enc link.max_bundle_bytes first more rest p
      → events ≡ first ∷ (more ++ rest)
      → Cover enc link rest ps
      → Cover enc link events (p ∷ ps)

module _ (enc : Encoding) where
  pub marshal-err :
      (events : List EventEnvelope) (max_bytes : ℤ) (x : Error)
      → marshal_federation_event_batch enc events max_bytes ≡ err x
      → x ≡ conflict
  unfolding marshal_federation_event_batch
  marshal-err events max_bytes x h = ground arith

  marshal-fits :
      (events : List EventEnvelope) (max_bytes : ℤ) (payload : Bytes)
      (compression : CompressionKind)
      → marshal_federation_event_batch enc events max_bytes ≡ ok (payload, compression)
      → fits payload max_bytes ≡ true
  unfolding marshal_federation_event_batch
  marshal-fits events max_bytes payload compression h = ground arith

  pub grow_lem :
      (max_bytes : ℤ) (first : EventEnvelope) (more : List EventEnvelope)
      (encoded encoded' : Bytes × CompressionKind) (events more' rest : List EventEnvelope)
      → marshal_federation_event_batch enc (first ∷ more) max_bytes ≡ ok encoded
      → grow enc max_bytes first more encoded events ≡ ok (more', encoded', rest)
      → (marshal_federation_event_batch enc (first ∷ more') max_bytes ≡ ok encoded')
        × (more ++ events ≡ more' ++ rest)
        × (length rest ≤ length events)
        × IsFull enc max_bytes first more' rest
  unfolding grow
  grow_lem max_bytes first more encoded encoded' [] more' rest m h =
      let a : more ≡ more' = cc in
      let b : encoded ≡ encoded' = cc in
      let c : rest ≡ [] = cc in rw (← a, ← b, c) (m, refl, omega arith, tt)
  grow_lem max_bytes first more encoded encoded' (e ∷ events) more' rest m h =
      elim (Result-cases
        (marshal_federation_event_batch enc (first ∷ (more ++ (e ∷ []))) max_bytes)) [
          | inl (larger, q) ↦
              let h' = rw (q, grow) at h in
              let (a, b, c, d) =
                grow_lem max_bytes first (more ++ (e ∷ [])) larger encoded' events more' rest q
                  h' in
              (a, sym (append_assoc more (e ∷ []) events) ∙ b, omega arith, d)
          | inr (x, q) ↦
              let conflicts = marshal-err (first ∷ (more ++ (e ∷ []))) max_bytes x q in
              let h' = rw (q, grow, conflicts) at h in
              let a : more ≡ more' = cc in
              let b : encoded ≡ encoded' = cc in
              let c : e ∷ events ≡ rest = cc in
              rw (← a, ← b, ← c) (m, refl, omega arith, q ∙ ap err conflicts)
        ]

  pub batches-Cover :
      (fuel : ℕ) (link : Link) (events : List EventEnvelope) (ps : List SaveBundleParams)
      → length events ≤ fuel
      → batches enc fuel link events ≡ ok ps
      → Cover enc link events ps
  unfolding batches
  batches-Cover zero link [] ps l h = let a : [] ≡ ps = cc in rw (← a) done
  batches-Cover zero link (e ∷ events) ps l h = absurd (omega arith)
  batches-Cover (suc fuel) link [] ps l h = let a : [] ≡ ps = cc in rw (← a) done
  batches-Cover (suc fuel) link (first ∷ events) ps l h =
      elim (Result-cases (marshal_federation_event_batch enc (first ∷ []) link.max_bundle_bytes)) [
        | inr (x, q) ↦
            let conflicts = marshal-err (first ∷ []) link.max_bundle_bytes x q in
            elim (Bool-cases (is_ultra_constrained link.delivery_class)) [
              | inl ultra ↦
                  let h' = rw (q, batches, conflicts, ultra) at h in
                  skipped (q ∙ ap err conflicts) ultra
                    (batches-Cover fuel link events ps (omega arith) h')
              | inr other ↦ let h' = rw (q, batches, conflicts, other) at h in cc
            ]
        | inl (encoded, q) ↦
            let h' = rw (q, batches) at h in
            elim (Result-cases (grow enc link.max_bundle_bytes first [] encoded events)) [
              | inr (x, r) ↦ let h'' = rw (r, batches) at h' in cc
              | inl ((more, (payload, compression), rest), r) ↦
                  let (encodes, whole, le, full) =
                    grow_lem link.max_bundle_bytes first [] encoded (payload, compression) events
                      more rest q r in
                  let h'' = rw (r, batches) at h' in
                  elim (Result-cases (batches enc fuel link rest)) [
                    | inr (x, u) ↦ let h3 = rw u at h'' in cc
                    | inl (params, u) ↦
                        let h3 = rw u at h'' in
                        let p =
                          batch_params first.sequence (last_sequence first more) (length more + 1)
                            payload compression in
                        let a : p ∷ params ≡ ps = cc in
                        let b : IsBatch enc link.max_bundle_bytes first more rest p = record {
                          starts = refl;
                          ends = refl;
                          counts = ap pos (omega arith);
                          encodes = encodes;
                          bounded =
                              marshal-fits (first ∷ more) link.max_bundle_bytes payload compression
                                encodes;
                          full = full;
                        } in
                        rw (← a) (
                          batch b (ap (◌∷◌ first) whole)
                            (batches-Cover fuel link rest params (omega arith) u))
                  ]
            ]
      ]
