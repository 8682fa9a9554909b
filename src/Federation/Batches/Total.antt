-- ===== src/Federation/Batches/Total.antt =====
-- The loops that build the batches end, and with bundles that cover the events.
use zvonilka.Base.{
  ℕ, true, List, [], ◌∷◌, ok, zero, suc, All, inl, inr, ◌≡◌, ℤ, length, ◌++◌, ◌⊎◌, Result-cases,
  ◌≤◌, arith, refl, ◌+◌,
}
use zvonilka.Federation.Models.{Link, CompressionKind, Bytes}
use zvonilka.Federation.Params.{SaveBundleParams}
use zvonilka.Federation.LinkForm.{is_ultra_constrained}
use zvonilka.Conversation.Events.{EventEnvelope}
use zvonilka.Federation.Batches.{
  Encoding, marshal_federation_event_batch, grow, batches, batch_params, last_sequence,
}
use zvonilka.Federation.Batches.Cover.{Cover, grow_lem, batches-Cover, marshal-err}

All-suffix {κ} :
    (P : EventEnvelope → Type κ) (xs ys : List EventEnvelope) → All P (xs ++ ys) → All P ys
All-suffix P [] ys ps = ps
All-suffix P (x ∷ xs) ys (p, ps) = All-suffix P xs ys ps

module _ (enc : Encoding) where
  -- The event fits into a bundle of the link by itself.
  abbrev pub FitsAlone : Link → EventEnvelope → Type 0
  FitsAlone link e =
      (encoded : Bytes × CompressionKind) × (marshal_federation_event_batch enc (e ∷ [])
          link.max_bundle_bytes
        ≡ ok encoded)

  -- The link leaves out what is too large, or nothing is.
  abbrev pub Admits : Link → List EventEnvelope → Type 0
  Admits link events =
      (is_ultra_constrained link.delivery_class ≡ true) ⊎ All (FitsAlone link) events

  Admits-suffix :
      (link : Link) (xs ys : List EventEnvelope) → Admits link (xs ++ ys) → Admits link ys
  Admits-suffix link xs ys (inl ultra) = inl ultra
  Admits-suffix link xs ys (inr alone) = inr (All-suffix (FitsAlone link) xs ys alone)

  grow_total :
      (max_bytes : ℤ) (first : EventEnvelope) (more : List EventEnvelope)
      (encoded : Bytes × CompressionKind) (events : List EventEnvelope)
      → (r : List EventEnvelope × (Bytes × CompressionKind) × List EventEnvelope) × (grow enc
            max_bytes first more encoded events
          ≡ ok r)
  unfolding grow
  grow_total max_bytes first more encoded [] = ((more, encoded, []), refl)
  grow_total max_bytes first more encoded (e ∷ events) =
      elim (Result-cases
        (marshal_federation_event_batch enc (first ∷ (more ++ (e ∷ []))) max_bytes)) [
          | inl (larger, q) ↦
              let (r, h) = grow_total max_bytes first (more ++ (e ∷ [])) larger events in
              (r, rw (q, grow) h)
          | inr (x, q) ↦
              let conflicts = marshal-err enc (first ∷ (more ++ (e ∷ []))) max_bytes x q in
              ((more, encoded, e ∷ events), rw (q, grow, conflicts) refl)
        ]

  batches_total :
      (fuel : ℕ) (link : Link) (events : List EventEnvelope)
      → length events ≤ fuel
      → Admits link events
      → (ps : List SaveBundleParams) × (batches enc fuel link events ≡ ok ps)
  unfolding batches
  batches_total zero link [] l a = ([], refl)
  batches_total zero link (e ∷ events) l a = absurd (omega arith)
  batches_total (suc fuel) link [] l a = ([], refl)
  batches_total (suc fuel) link (first ∷ events) l a =
      elim (Result-cases (marshal_federation_event_batch enc (first ∷ []) link.max_bundle_bytes)) [
        | inr (x, q) ↦
            let conflicts = marshal-err enc (first ∷ []) link.max_bundle_bytes x q in
            elim a [
              | inl ultra ↦
                  let (ps, h) = batches_total fuel link events (omega arith) (inl ultra) in
                  (ps, rw (q, batches, conflicts, ultra) h)
              | inr (alone, rest) ↦ absurd (ground (arith, alone.1))
            ]
        | inl (encoded, q) ↦
            let ((more, encoded', rest), r) =
              grow_total link.max_bundle_bytes first [] encoded events in
            let (encodes, whole, le, full) =
              grow_lem enc link.max_bundle_bytes first [] encoded encoded' events more rest q r in
            let admits : Admits link rest =
              Admits-suffix link (first ∷ more) rest (rw (← whole) a) in
            let (ps, h) = batches_total fuel link rest (omega arith) admits in
            (
              batch_params first.sequence (last_sequence first more) (length more + 1) encoded'.0
                    encoded'.1
                  ∷ ps,
              rw (q, batches) (rw (r, batches) (rw h refl)),
            )
      ]

  -- Where the link leaves out what is too large for it, or nothing is too large alone: the loops end
  -- with bundles, and these deal out the events in their order. Each event stands in one bundle; it is
  -- left out only where it is too large alone. Each bundle names its first and last event and their
  -- number, its payload encodes them within the limit of the link, and it ends only where one event
  -- more would not fit.
  pub batches_total-Cover :
      (link : Link) (events : List EventEnvelope)
      → Admits link events
      → (ps : List SaveBundleParams) × (batches enc (length events) link events ≡ ok ps)
        × Cover enc link events ps
  batches_total-Cover link events a =
      let (ps, h) = batches_total (length events) link events (omega arith) a in
      (ps, h, batches-Cover enc (length events) link events ps (omega arith) h)
