-- ===== src/System/Isolation.antt =====
-- web/src/app/api/feeds and web/src/app/api/routes: what the requests of a user leave of the feeds of
-- the others.
