-- ===== src/Tests/Golden.antt =====
-- The generator against the files of the examples that it has written.
mod Lines
mod RouteGuideHeader
mod RouteGuideSource
mod GreeterHeader
mod GreeterSource
