-- ===== src/Http.antt =====
-- The exceptions of @nestjs/common that the controllers and services throw, and how
-- apps/server/src/containers/containers.controller.ts turns a message into one.
use docksight.Base.{String, ◌||◌, if◌then◌else◌}
use docksight.Text.{includes}

pub data HttpException : Type 0 where
  bad_request unauthorized forbidden not_found conflict service_unavailable gateway_timeout
        internal :
      (message : String) → HttpException

-- What a request comes to; `internal` is any error that is no HttpException.
pub data Response (A : Type 0) : Type 0 where
  ok : A → Response A
  thrown : HttpException → Response A

-- mapAndThrow, of an error that is not yet an HttpException.
unfoldable pub map_error : String → HttpException
map_error message =
    if includes "not found" message
    then not_found message
    else if includes "not connected" message || includes "offline" message
    then service_unavailable message
    else if includes "timed out" message
    then gateway_timeout message
    else if includes "required" message
    then bad_request message
    else bad_request message

-- mapStreamError
unfoldable pub map_stream_error : String → HttpException
map_stream_error message =
    if includes "not found" message
    then not_found message
    else if includes "not connected" message || includes "offline" message
    then service_unavailable message
    else bad_request message
