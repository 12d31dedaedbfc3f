-- ===== src/ExceptionFilter.antt =====
-- What a client is answered where a handler throws:
-- `apps/api/src/common/filters/all-exceptions.filter.ts`, which is registered for every handler in
-- `apps/api/src/app.module.ts`. Of the body, the message is modelled.
use skolara.Prelude.{ℕ, String}
use skolara.Prelude.Action.{
  Exception, bad_request, conflict, forbidden, not_found, unauthorized, record_missing,
  unique_violation, service_failed,
}

pub record Response : Type 0 where
  pub status : ℕ
  pub message : String

-- `catch`: the exceptions of Nest carry their status; of Prisma's, P2002 and P2025 are translated.
abbrev pub catch_exception : Exception → Response
catch_exception (bad_request m) = record { status = 400; message = m }
catch_exception (unauthorized m) = record { status = 401; message = m }
catch_exception (forbidden m) = record { status = 403; message = m }
catch_exception (not_found m) = record { status = 404; message = m }
catch_exception (conflict m) = record { status = 409; message = m }
catch_exception unique_violation = record {
  status = 409;
  message = "A record with these details already exists";
}
catch_exception record_missing = record { status = 404; message = "Record not found" }
catch_exception service_failed = record {
  status = 500;
  message = "Something went wrong. Please try again.";
}
