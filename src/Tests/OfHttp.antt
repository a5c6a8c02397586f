-- ===== src/Tests/OfHttp.antt =====
-- The parser of http_parser.c on a request and a response.
use proxiflare.Prelude.{
  ◌≡◌, refl, false, contains_byte, some, List, [], ◌∷◌, ◌++◌, Bytes, codes, arith,
}
use proxiflare.Prelude.Int.{pos}
use proxiflare.HttpMessage.{Header, parse_request, parse_response, skip_blanks}
use proxiflare.HttpMessage.Lines.{render}
use proxiflare.HttpMessage.RoundTrip.{expected, parse_request-render}

abbrev host : Header
host = record { key = codes "Host"; value = codes "a.ch" }

abbrev size : Header
size = record { key = codes "content-length"; value = codes "2" }

abbrev headers : List Header
headers = host ∷ size ∷ []

abbrev post : Bytes
post = render (codes "POST") (codes "/x") (codes "HTTP/1.1") headers (codes "hi")

abbrev reply : Bytes
reply = codes "HTTP/1.1 404 Not Found" ++ (13 ∷ 10 ∷ 13 ∷ 10 ∷ [])

reply_read :
    parse_response reply
    ≡ some (record {
      is_request = false;
      method = [];
      url = [];
      version = codes "HTTP/1.1";
      headers = [];
      body = [];
      content_length = 0;
      status_code = pos 404;
      status_text = codes "Not Found";
      header_end = 26;
    })
unfolding parse_response
reply_read = refl

parse_request-render_example :
    parse_request post
    ≡ some (expected (codes "POST") (codes "/x") (codes "HTTP/1.1") headers (codes "hi"))
unfolding contains_byte skip_blanks
parse_request-render_example =
    parse_request-render (codes "POST") (codes "/x") (codes "HTTP/1.1") headers (codes "hi")
      (record {
        no_cr = refl;
        method_plain = refl;
        url_plain = refl;
        method_fits = omega arith;
        url_fits = omega arith;
        version_fits = omega arith;
        not_short = omega arith;
      })
      (
        record {
          no_cr = refl;
          no_colon = refl;
          no_blank = refl;
          key_fits = omega arith;
          value_fits = omega arith;
        },
        (
          record {
            no_cr = refl;
            no_colon = refl;
            no_blank = refl;
            key_fits = omega arith;
            value_fits = omega arith;
          },
          tt,
        ),
      )
      (omega arith)
