-- ===== src/Server/RouteTests.antt =====
-- server.py: the routes of the mesh on a concrete state.
mod State
mod Events
mod Owner
mod Files
mod Viewers
mod Joining
mod Opening
mod Reading
mod Arrival
