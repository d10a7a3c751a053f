-- ===== src/Http/Codec/Sequence/Announced.antt =====
-- All the requests of a connection.
use woody.Shared.{◌≡◌, refl, ap, ◌∙◌, List, [], ◌∷◌}
use woody.Http.Codec.{HttpCodec, HttpEvent, on_begin, on_complete, on_callbacks}
use woody.Http.Codec.Sequence.{
  Message, run, runs, Held, request_of, held_after, requests_of, IsHolding, announcements,
  held_at_end,
}
use woody.Http.Codec.Sequence.Request.{holding_lem, behind_run, behind_run-IsHolding, run_lem}

-- The codec of a handler between two requests gets any number of requests, each with any number of
-- headers and with its url, its headers and its body in any number of pieces. It announces exactly
-- these requests, in order, each with the last piece of its url, the joined headers and the last
-- piece of its body; but the name of the first header stands behind the name that the codec held,
-- a request without headers gets the header that the codec held, and one without a body the body
-- that it held. Behind them the codec stands between two requests again and holds the last header
-- and the last body.
pub on_callbacks-runs :
    (qs : List Message) (held : Held) (c : HttpCodec)
    → IsHolding held c
    → ((on_callbacks (runs qs) c).events ≡ announcements c.cur_stream_id (requests_of qs held))
      × IsHolding (held_at_end qs held) (on_callbacks (runs qs) c).codec
unfolding on_callbacks runs requests_of
on_callbacks-runs [] held c h = (refl, h)
on_callbacks-runs (q ∷ qs) held c h =
    let more =
      on_callbacks-runs qs (held_after q held) (behind_run q held c)
        (behind_run-IsHolding q held c) in
    let e : on_callbacks (run q (runs qs)) c ≡ _ =
      ap (λ (d : HttpCodec). on_callbacks (run q (runs qs)) d) (holding_lem held c h)
      ∙ run_lem q held c (runs qs) in
    rw e (
      ap
          (λ (es : List HttpEvent).
            on_begin c.cur_stream_id ∷ on_complete c.cur_stream_id (request_of q held) ∷ es)
          more.0,
      more.1,
    )
