-- ===== src/Rtsp/Server/Responses.antt =====
-- What a client is answered over a whole connection.
use gunk.Base.{
  ℕ, suc, ◌≡◌, ◌∙◌, refl, ap, sym, Bool-cases, inl, inr, Bool, true, false, Option, none, some,
  List, [], ◌∷◌, ◌++◌, map, if◌then◌else◌, Text, text_eq, take, append_assoc, append-nil,
  map-append,
}
use gunk.Base.Int.{ℤ}
use gunk.Ftl.Words.{fields}
use gunk.Rtsp.State.{
  Conn, Response, Input, Read, reads, read_fails, Error, Header, Stream, Source, streams, not_found,
  fails, UdpAddr,
}
use gunk.Rtsp.Server.{
  all_supported, is_empty, is_zero, port_range, split, dest_port, write_response, handle_describe,
  handle_setup, play_with, handle_play, wrapped, dispatch, on_words, handle_request, go_on, serve,
}

cseq_of : Response → Text
cseq_of x = x.cseq

-- The sequence numbers of the responses that were written.
unfoldable pub answered : Conn → List Text
unfolding cseq_of
answered c = map cseq_of c.responses

-- The sequence numbers of the requests, up to one that cannot be read.
abbrev pub asked : List Read → List Text
asked [] = []
asked (read_fails ∷ rs) = []
asked (reads r ∷ rs) = r.cseq ∷ asked rs

-- The sequence number that a request's handling adds: none on an error.
abbrev own : Text → Option Error → List Text
own cseq none = cseq ∷ []
own cseq (some e) = []

Answers : Text → Conn → Conn × Option Error → Type 0
unfolding answered
Answers cseq c out = answered out.0 ≡ answered c ++ own cseq out.1

Answers-if :
    (b : Bool) (cseq : Text) (c : Conn) (x y : Conn × Option Error)
    → Answers cseq c x
    → Answers cseq c y
    → Answers cseq c (if b then x else y)
Answers-if true cseq c x y v w = v
Answers-if false cseq c x y v w = w

-- A response, after a change of the connection that writes none.
writes_after :
    (r : Input) (code : ℕ) (headers : List Header) (body : List Stream) (c d : Conn)
    → answered d ≡ answered c
    → Answers r.cseq c (write_response r code headers body d)
unfolding Answers write_response answered cseq_of
writes_after r code headers body c d same = elim (Bool-cases r.writes) [
  | inl ok ↦ rw ok (map-append cseq_of d.responses _ ∙ ap (λ l. l ++ r.cseq ∷ []) same)
  | inr lost ↦ rw lost (same ∙ sym (append-nil _))
]

fails-Answers :
    (cseq : Text) (e : Error) (c d : Conn) → answered d ≡ answered c → Answers cseq c (d, some e)
unfolding Answers
fails-Answers cseq e c d same = same ∙ sym (append-nil _)

describe-Answers :
    (r : Input) (url : Text) (answer : Source) (c : Conn)
    → Answers r.cseq c (handle_describe r url answer c)
unfolding handle_describe answered
describe-Answers r url not_found c = writes_after r 404 [] [] c c refl
describe-Answers r url fails c = fails-Answers r.cseq _ c c refl
describe-Answers r url (streams ss) c =
    Answers-if (all_supported ss) r.cseq c _ _ (writes_after r 200 _ ss c _ refl)
      (fails-Answers r.cseq _ c _ refl)

wrapped-Answers :
    (cseq : Text) (c : Conn) (out : Conn × Option Error)
    → Answers cseq c out
    → Answers cseq c (wrapped out)
unfolding Answers
wrapped-Answers cseq c (d, none) v = v
wrapped-Answers cseq c (d, some e) v = v

play-Answers :
    (r : Input) (dest : Option UdpAddr) (answer : Source) (c : Conn)
    → Answers r.cseq c (play_with r dest answer c)
unfolding play_with answered
play-Answers r none answer c = fails-Answers r.cseq _ c c refl
play-Answers r (some dest) not_found c = writes_after r 404 [] [] c c refl
play-Answers r (some dest) fails c = fails-Answers r.cseq _ c c refl
play-Answers r (some dest) (streams ss) c = writes_after r 200 [] [] c _ refl

module _ (atoi : Text → ℤ) (src_port : ℕ) (remote_ip : Text) where
  setup-Answers :
      (r : Input) (c : Conn) → Answers r.cseq c (handle_setup atoi src_port remote_ip r c)
  unfolding handle_setup answered
  setup-Answers r c =
      Answers-if (is_empty (port_range [] (split b';' r.transport_value))) r.cseq c _ _
        (fails-Answers r.cseq _ c c refl)
        (Answers-if (is_zero (dest_port atoi r.transport_value)) r.cseq c _ _
          (fails-Answers r.cseq _ c c refl) (writes_after r 200 _ [] c _ refl))

  dispatch-Answers :
      (r : Input) (method url : Text) (c : Conn)
      → Answers r.cseq c (dispatch atoi src_port remote_ip r method url c)
  unfolding dispatch handle_play answered
  dispatch-Answers r method url c =
      Answers-if (text_eq method _) r.cseq c _ _
        (wrapped-Answers r.cseq c _ (writes_after r 200 _ [] c c refl))
        (Answers-if (text_eq method _) r.cseq c _ _
          (wrapped-Answers r.cseq c _ (describe-Answers r url r.answer c))
          (Answers-if (text_eq method _) r.cseq c _ _
            (wrapped-Answers r.cseq c _ (setup-Answers r c))
            (Answers-if (text_eq method _) r.cseq c _ _
              (wrapped-Answers r.cseq c _ (play-Answers r c.dest_addr r.answer c))
              (Answers-if (text_eq method _) r.cseq c _ _ (writes_after r 200 [] [] c _ refl)
                (writes_after r 405 [] [] c c refl)))))

  words-Answers :
      (r : Input) (words : List Text) (c : Conn)
      → Answers r.cseq c (on_words atoi src_port remote_ip r words c)
  unfolding on_words
  words-Answers r (method ∷ url ∷ version ∷ []) c =
      Answers-if r.url_ok r.cseq c _ _ (dispatch-Answers r method url c)
        (fails-Answers r.cseq _ c c refl)
  words-Answers r [] c = fails-Answers r.cseq _ c c refl
  words-Answers r (a ∷ []) c = fails-Answers r.cseq _ c c refl
  words-Answers r (a ∷ b ∷ []) c = fails-Answers r.cseq _ c c refl
  words-Answers r (a ∷ b ∷ d ∷ e ∷ ws) c = fails-Answers r.cseq _ c c refl

  go_on_lem :
      (r : Input) (rs : List Read) (c : Conn) (out : Conn × Option Error)
      → Answers r.cseq c out
      → ((d : Conn)
          → (k : ℕ) × (answered (serve atoi src_port remote_ip rs d)
              ≡ answered d ++ take k (asked rs)))
      → (k : ℕ) × (answered (go_on (serve atoi src_port remote_ip rs) out)
          ≡ answered c ++ take k (r.cseq ∷ asked rs))
  unfolding Answers go_on answered
  go_on_lem r rs c (d, none) v rest =
      let (k, eq) = rest d in
      (
        suc k,
        eq
            ∙ ap (λ l. l ++ take k (asked rs)) v
            ∙ append_assoc (answered c) (r.cseq ∷ []) (take k (asked rs)),
      )
  go_on_lem r rs c (d, some e) v rest = (0, v)

  -- The responses of a connection answer its requests one by one and in their order: their sequence
  -- numbers are those of the first so many requests.
  pub serve-answered :
      (rs : List Read) (c : Conn)
      → (k : ℕ) × (answered (serve atoi src_port remote_ip rs c) ≡ answered c ++ take k (asked rs))
  unfolding serve handle_request answered go_on
  serve-answered [] c = (0, sym (append-nil _))
  serve-answered (read_fails ∷ rs) c = (0, sym (append-nil _))
  serve-answered (reads r ∷ rs) c =
      go_on_lem r rs c (on_words atoi src_port remote_ip r (fields r.line) c)
        (words-Answers r (fields r.line) c) (serve-answered rs)
