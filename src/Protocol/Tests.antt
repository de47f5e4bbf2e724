-- ===== src/Protocol/Tests.antt =====
-- Runs of the codec on one message.
use wyrwood.Base.{◌≡◌, true, none, some, [], ◌∷◌, ◌++◌}
use wyrwood.Base.Text.{Text, codes}
use wyrwood.Base.Assoc.{Assoc}
use wyrwood.Policy.Hcl.{Hcl}
use wyrwood.Protocol.Messages.{Message, unbind}
use wyrwood.Protocol.Codec.{Codec, line, full, receive, quoted, version_text}
use wyrwood.Protocol.Framing.{read_line, receive-fulls}

abbrev no_stanzas : Hcl
no_stanzas = record {
  parse = λ s. some [];
  unquote = λ s. none;
  decode_rules = λ s. some [];
  print = λ is. none;
}

abbrev retire : Message
retire = unbind (codes "b-1")

abbrev binding_field : Assoc Text
binding_field = (codes "binding", quoted (codes "b-1")) ∷ []

-- encoding/json on the message that retires binding b-1.
abbrev one_message : Codec
one_message = record {
  hcl = no_stanzas;
  absolute_uri = λ s. true;
  marshal = λ m. some (codes "{\"binding\":\"b-1\"}");
  marshal_fields = λ fields. some (codes "{\"binding\":\"b-1\"}");
  unmarshal_fields = λ s.
      some
        ((codes "version", version_text) ∷ (codes "type", quoted (codes "unbind")) ∷ binding_field);
  unmarshal_int = λ s. some 2;
  unmarshal_string = λ s. some (codes "unbind");
  decode_strict = λ t s. some retire;
}

abbrev sent_line : Text
sent_line = codes "{\"version\":2,\"type\":\"unbind\",\"binding\":\"b-1\"}" ++ b'\n' ∷ []

receive-fulls_example :
    receive one_message (full (codes "ab") ∷ line (codes "c" ++ b'\n' ∷ []) ∷ [])
    ≡ read_line one_message (codes "abc" ++ b'\n' ∷ [])
receive-fulls_example = receive-fulls one_message (codes "ab" ∷ []) (codes "c" ++ b'\n' ∷ []) []
