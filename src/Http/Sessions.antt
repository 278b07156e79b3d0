-- ===== src/Http/Sessions.antt =====
-- Sessions of administrators: NewAdminHandlerSession and CheckAdminHandlerSession of
-- bmloginsvrapp/http_admin_handler.go.
use bmservers.Prelude.Assoc.{str_key}
