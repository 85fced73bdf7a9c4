-- ===== src/Sync/Syncing/Serving.antt =====
-- The responder's side (crates/bypass-cli/src/sync/syncing.rs): `serve`, and that no reply carries a
-- pack above the cap.
use bypass.Prelude.{
  ℕ, ◌≡◌, ◌≤◌, ◌⊎◌, refl, inl, inr, ◌∙◌, ap, Option, ◌++◌, ltb, if◌then◌else◌, length, arith,
  Bool-cases,
}
use bypass.Text.{Text, Bytes, codes}
use bypass.Sync.Wire.{
  WireBody, WireMsg, WireError, Serde, IsSerde, message, want_pack_from, pack, refusal, encode,
  decode, decode-encode,
}
use bypass.Sync.Syncing.{Repo, max_pack_bytes}

module _ (𝓙 : Serde) (𝓡 : Repo) (describe : 𝓡.Error → Text) (decimal : ℕ → Text) where
  abbrev pub reply : WireBody → Bytes
  reply body = encode 𝓙 (message body)

  abbrev pub too_big : ℕ → ℕ → Text
  too_big size cap =
      codes "pack of "
      ++ (decimal size
          ++ (codes " bytes exceeds "
              ++ (decimal cap
                  ++ codes
                      "-byte cap (ADR-0016); bootstrap via a git remote first, then resume peer sync")))

  abbrev pub pack_reply : Option Text → ℕ → 𝓡.Error ⊎ Bytes → WireBody
  pack_reply local_head cap (inr bytes) =
      if ltb cap (length bytes) then refusal (too_big (length bytes) cap) else pack local_head bytes
  pack_reply local_head cap (inl e) = refusal (codes "build pack: " ++ describe e)

  unfoldable pub serve_want_pack_from_capped : 𝓡.State → Option Text → Option Text → ℕ → Bytes
  unfolding encode
  serve_want_pack_from_capped st local_head peer_head_seen cap =
      reply (pack_reply local_head cap (𝓡.build_pack st local_head peer_head_seen))

  unfoldable pub serve_want_pack_from : 𝓡.State → Option Text → Option Text → Bytes
  unfolding serve_want_pack_from_capped
  serve_want_pack_from st local_head peer_head_seen =
      serve_want_pack_from_capped st local_head peer_head_seen max_pack_bytes

  abbrev serve_head : 𝓡.State → Option Text → 𝓡.Error ⊎ Option Text → Bytes
  serve_head st peer_head_seen (inr our_head) = serve_want_pack_from st our_head peer_head_seen
  serve_head st peer_head_seen (inl e) = reply (refusal (codes "read HEAD: " ++ describe e))

  abbrev serve_body : 𝓡.State → WireBody → Bytes
  serve_body st (want_pack_from initiator_head peer_head_seen) =
      serve_head st peer_head_seen (𝓡.head_sha st)
  serve_body st (pack peer_head bytes) =
      reply (refusal (codes "only WantPackFrom is a valid inbound request"))
  serve_body st (refusal reason) =
      reply (refusal (codes "only WantPackFrom is a valid inbound request"))

  abbrev serve_message : 𝓡.State → WireError ⊎ WireMsg → Bytes
  serve_message st (inr msg) = serve_body st msg.body
  serve_message st (inl e) = reply (refusal (codes "bad wire frame"))

  unfoldable pub serve : 𝓡.State → Bytes → Bytes
  unfolding serve_want_pack_from encode
  serve st bytes = serve_message st (decode 𝓙 bytes)

  -- The replies that may be sent for these frames: a refusal, or for a request for a pack the
  -- repository's own pack for that request, not above the cap.
  abbrev pub MayReply : 𝓡.State → Bytes → WireBody → Type 0
  MayReply st bytes (refusal reason) = Unit
  MayReply st bytes (want_pack_from h s) = ⊥
  MayReply st bytes (pack head bytes') =
      (length bytes' ≤ max_pack_bytes)
      × (𝓡.head_sha st ≡ inr head)
      × ((seen : Option Text) × (initiator : Option Text) × (magic : Bytes) × (decode 𝓙 bytes
            ≡ inr (record { magic = magic; body = want_pack_from initiator seen }))
          × (𝓡.build_pack st head seen ≡ inr bytes'))

  Replies : 𝓡.State → Bytes → Bytes → Type 0
  Replies st bytes out = (body : WireBody) × (out ≡ reply body) × MayReply st bytes body

  pack_case :
      (st : 𝓡.State) (bytes : Bytes) (magic : Bytes) (initiator seen head : Option Text)
      (built : 𝓡.Error ⊎ Bytes)
      → decode 𝓙 bytes ≡ inr (record { magic = magic; body = want_pack_from initiator seen })
      → 𝓡.head_sha st ≡ inr head
      → 𝓡.build_pack st head seen ≡ built
      → MayReply st bytes (pack_reply head max_pack_bytes built)
  pack_case st bytes magic initiator seen head (inr bytes') decoded read built =
      elim (Bool-cases (ltb max_pack_bytes (length bytes'))) [
        | inl e ↦ rw e tt
        | inr e ↦ rw e (ground arith, read, (seen, initiator, magic, decoded, built))
      ]
  pack_case st bytes magic initiator seen head (inl e) decoded read built = tt

  serve_head-MayReply :
      (st : 𝓡.State) (bytes : Bytes) (magic : Bytes) (initiator seen : Option Text)
      (head : 𝓡.Error ⊎ Option Text)
      → decode 𝓙 bytes ≡ inr (record { magic = magic; body = want_pack_from initiator seen })
      → 𝓡.head_sha st ≡ head
      → (body : WireBody) × (serve_head st seen head ≡ reply body) × MayReply st bytes body
  unfolding serve_want_pack_from serve_want_pack_from_capped
  serve_head-MayReply st bytes magic initiator seen (inl e) decoded read = (refusal _, refl, tt)
  serve_head-MayReply st bytes magic initiator seen (inr head) decoded read = (
    pack_reply head max_pack_bytes (𝓡.build_pack st head seen),
    refl,
    pack_case st bytes magic initiator seen head (𝓡.build_pack st head seen) decoded read refl,
  )

  serve_message-MayReply :
      (st : 𝓡.State) (bytes : Bytes) (decoded : WireError ⊎ WireMsg)
      → decode 𝓙 bytes ≡ decoded
      → (body : WireBody) × (serve_message st decoded ≡ reply body) × MayReply st bytes body
  serve_message-MayReply st bytes (inl e) d = (refusal _, refl, tt)
  serve_message-MayReply st bytes (inr msg) d = by_body msg.body refl
    where
      by_body :
          (b : WireBody)
          → msg.body ≡ b
          → (body : WireBody) × (serve_body st b ≡ reply body) × MayReply st bytes body
      by_body (want_pack_from initiator seen) e =
          serve_head-MayReply st bytes msg.magic initiator seen (𝓡.head_sha st)
            (d ∙ ap inr (ap (λ (b : WireBody). record { magic = msg.magic; body = b }) e)) refl
      by_body (pack head bytes') e = (refusal _, refl, tt)
      by_body (refusal reason) e = (refusal _, refl, tt)

  -- Where serialisation round-trips, every inbound frame gets a reply that the initiator can
  -- decode: a refusal, or, to a request for a pack only, the pack that the repository builds for
  -- it, with our head, of at most `MAX_PACK_BYTES`.
  pub decode-serve :
      (laws : IsSerde 𝓙) (st : 𝓡.State) (bytes : Bytes)
      → (body : WireBody) × (decode 𝓙 (serve st bytes) ≡ inr (message body))
        × MayReply st bytes body
  unfolding serve
  decode-serve laws st bytes =
      let (body, same, may) = serve_message-MayReply st bytes (decode 𝓙 bytes) refl in
      (body, ap (decode 𝓙) same ∙ decode-encode laws body, may)
