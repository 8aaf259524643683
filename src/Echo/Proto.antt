-- ===== src/Echo/Proto.antt =====
-- Protobuf's code for the messages of the echo service, as a parameter, and what a worker asks of it.
use zqrpc.Errors.{ZError, zerror, zerror_of, no_such_method}
use zqrpc.Exec.{Result, ok, raised}
use zqrpc.Worker.{Services}
use zqrpc.Worker.Answer.{IsPolite}
use zqrpc.Echo.{
  EchoRequest, EchoResponse, EchoMethod, first, second, echo_service_impl, echo1, echo2, full_name,
  request_instance,
}
use zqrpc.Prelude.{
  codes, ◌≡◌, refl, nat_eq, bytes_key, ◌⊎◌, inl, inr, Bytes, bytes_eq, Option, none, some, [], ◌++◌,
  if◌then◌else◌, ◌==◌,
}

-- Protobuf's code for the two messages, and the generated CallMethod of the service.
pub record EchoProto : Type 0 where
  pub encode_request : EchoRequest → Bytes
  pub parse_request : Bytes → Option EchoRequest
  pub encode_response : EchoResponse → Bytes
  pub parse_response : Bytes → EchoResponse
  pub call_method : EchoMethod → EchoRequest → EchoResponse → EchoResponse

-- What is read is what was written, and CallMethod calls the method of its descriptor.
pub record IsEchoProto (p : EchoProto) : Type 0 where
  pub request_back : (q : EchoRequest) → p.parse_request (p.encode_request q) ≡ some q
  pub response_back : (a : EchoResponse) → p.parse_response (p.encode_response a) ≡ a
  pub calls :
      (m : EchoMethod) (q : EchoRequest) (a : EchoResponse)
      → p.call_method m q a ≡ echo_service_impl m q a

-- google::protobuf::Message*, as one of the two messages.
pub data Message : Type 0 where
  request : EchoRequest → Message
  response : EchoResponse → Message

abbrev pub empty : EchoResponse
empty = record { response = [] }

-- The method of a descriptor.
abbrev pub method_named : Bytes → Option EchoMethod
method_named name =
    if bytes_eq name (full_name first)
    then some first
    else if bytes_eq name (full_name second)
    then some second
    else none

abbrev as_request : Option EchoRequest → Option Message
as_request none = none
as_request (some q) = some (request q)

module _ (p : EchoProto) where
  abbrev parsed : Message → Bytes → Option Message
  parsed (request q) bytes = as_request (p.parse_request bytes)
  parsed (response a) bytes = some (response (p.parse_response bytes))

  abbrev serialized : Message → Bytes
  serialized (request q) = p.encode_request q
  serialized (response a) = p.encode_response a

  -- The map of methods has the service's own descriptors and prototypes, so that another name or
  -- another type of message does not come.
  abbrev called : Option EchoMethod → Message → Message → Result Message
  called (some m) (request q) (response a) = ok (response (p.call_method m q a))
  called _ _ _ = raised (zerror (zerror_of no_such_method))

  abbrev pub echo_services : Services Message (Unit {0})
  echo_services = record {
    make = λ prototype.
        if prototype == request_instance then request (record { message = [] }) else response empty;
    parse = parsed;
    serialize = λ m. some (serialized m);
    call_method = λ service name q a s. (called (method_named name) q a, s);
  }

  called-polite :
      (m : Option EchoMethod) (q a : Message)
      → ((r : Message) × (called m q a ≡ ok r))
        ⊎ ((e : ZError) × (called m q a ≡ raised (zerror e)))
  called-polite (some m) (request q) (response a) = inl (response (p.call_method m q a), refl)
  called-polite (some m) (request q) (request a) = inr (zerror_of no_such_method, refl)
  called-polite (some m) (response q) a = inr (zerror_of no_such_method, refl)
  called-polite none q a = inr (zerror_of no_such_method, refl)

  pub echo_services-IsPolite : IsPolite echo_services
  unfolding IsPolite
  echo_services-IsPolite service name q a s = called-polite (method_named name) q a

-- What each method puts before the message of its request.
abbrev pub said : EchoMethod → Bytes
said first = codes "You sent1: "
said second = codes "You sent2: "

pub echo_service_impl-says :
    (m : EchoMethod) (q : EchoRequest) (a : EchoResponse)
    → echo_service_impl m q a ≡ record { response = said m ++ q.message }
unfolding echo_service_impl echo1 echo2
echo_service_impl-says first q a = refl
echo_service_impl-says second q a = refl

pub named : (m : EchoMethod) → method_named (full_name m) ≡ some m
unfolding bytes_eq
named first = refl
named second = refl
